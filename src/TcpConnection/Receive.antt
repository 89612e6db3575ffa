-- ===== src/TcpConnection/Receive.antt =====
-- The receive loop: what a poll reads from the network goes to the device, within its window.
use gnirehtet.Base.{
  ℕ, ◌+◌, ◌-◌, ◌≤◌, ◌<◌, ◌^◌, ◌≡◌, ◌⊎◌, inl, inr, ◌≢◌, Bool, Bool-cases, ◌||◌, ◌==◌, zero, suc,
  true, false, [], ◌∷◌, min, would_block, failed, ◌∙◌, refl, arith, length, List, some, IoResult,
  ok, length-take, length-drop, length-write_u16, length-write_u32, slice, drop,
}
use gnirehtet.Header.Transport
use gnirehtet.Header.Transport.{TransportHeader, htcp, hudp, TransportHeaderData, dtcp, dudp}
use gnirehtet.Packetizer.{Packetizer, transport_header}
use gnirehtet.Packetizer.Layout.{IsLaidOut, put_transport_header-IsLaidOut}
use gnirehtet.Packetizer.{read_answer, packetize_read, chunk}
use gnirehtet.Packetizer.Read.{build-IsPacketOf}
use gnirehtet.IpPacket.{is_some, IpPacket, bytes_behind}
use gnirehtet.IpPacket.Checksums.{bytes_behind-payload}
use gnirehtet.SharedBuffer
use gnirehtet.TcpConnection.State.{
  close, advertised_window, Tcb, TcpConnection, remaining_client_window,
}
use gnirehtet.TcpConnection.Send.{stamp, update_headers, send_empty_packet_to_client}
use gnirehtet.TcpConnection.Poll.{
  receive_one, receive_loop, process_receive, max_payload_length, Round, again, leave, deliver,
  received, eof,
}
use gnirehtet.TcpConnection.Window.{
  in_flight, IsTcb, remaining_client_window-in_flight, deliver-window,
}

stamp-sizes :
    (t : Tcb) (flags window : ℕ) (d : TransportHeaderData) (raw : List ℕ)
    → let h = stamp t flags window (Transport.bind d raw) in
      (length (Transport.raw h) ≡ length raw)
      × (Transport.header_length (Transport.data_clone h) ≡ Transport.header_length d)
unfolding stamp Transport.bind Transport.raw Transport.data_clone Transport.header_length
stamp-sizes t flags window (dtcp d) raw = (
  length-write_u16 14 _ _
      ∙ length-write_u16 12 _ _
      ∙ length-write_u32 8 _ _
      ∙ length-write_u32 4 _ _,
  refl,
)
stamp-sizes t flags window (dudp d) raw = (refl, refl)

pub update_headers-IsLaidOut :
    (t : Tcb) (flags window : ℕ) (p : Packetizer)
    → IsLaidOut p
    → IsLaidOut (update_headers t flags window p)
      × ((update_headers t flags window p).payload_index ≡ p.payload_index)
unfolding update_headers transport_header
update_headers-IsLaidOut t flags window p lay =
    let s =
      stamp-sizes t flags window p.transport_header_data
        (slice p.transport_index p.payload_index p.buffer) in
    (
      (put_transport_header-IsLaidOut _ p lay
          (omega (
            arith,
            s.0,
            length-take (p.payload_index - p.transport_index) (drop p.transport_index p.buffer),
            length-drop p.transport_index p.buffer,
            lay.full,
            lay.fits,
            lay.payload_at,
          ))
          s.1).0,
      refl,
    )

-- No more than the window is in flight.
pub record InWindow (c : TcpConnection) : Type 0 where
  pub words : IsTcb c.tcb
  pub within : in_flight c.tcb ≤ c.tcb.client_window

-- And the packetizer can make a packet with the largest payload.
pub record Flowing (c : TcpConnection) : Type 0 where
  pub window : InWindow c
  pub laid_out : IsLaidOut c.network_to_client
  pub small : c.network_to_client.payload_index + max_payload_length < 2 ^ 16

send_cases : (r : IoResult (Unit {0})) → (r ≡ ok tt) ⊎ (r ≢ ok tt)
send_cases (ok tt) = inl refl
send_cases would_block = inr (λ e. cc e)
send_cases failed = inr (λ e. cc e)

deliver-deferred :
    (packet : IpPacket) (c : TcpConnection)
    → (SharedBuffer.send_to_client c.buffer packet).1 ≢ ok tt
    → ((deliver packet c).0.tcb ≡ c.tcb) × ((deliver packet c).1 ≡ leave false)
unfolding deliver
deliver-deferred packet c blocked = ground arith

deliver-packetizer :
    (packet : IpPacket) (c : TcpConnection)
    → (deliver packet c).0.network_to_client ≡ c.network_to_client
unfolding deliver
deliver-packetizer packet c = ground arith

deliver-Flowing :
    (packet : IpPacket) (c : TcpConnection) (bytes : List ℕ)
    → Flowing c
    → bytes_behind packet ≡ some bytes
    → length bytes ≤ remaining_client_window c.tcb
    → InWindow (deliver packet c).0 × ((deliver packet c).1 ≡ again → Flowing (deliver packet c).0)
deliver-Flowing packet c bytes f e few =
    elim (send_cases (SharedBuffer.send_to_client c.buffer packet).1) [
      | inl sent ↦
          let w = deliver-window packet c bytes f.window.words f.window.within e few sent in
          let window : InWindow (deliver packet c).0 = record { words = w.0; within = w.1 } in
          (
            window,
            λ more. record {
              window = window;
              laid_out = rw (deliver-packetizer packet c) f.laid_out;
              small = rw (deliver-packetizer packet c) f.small;
            },
          )
      | inr blocked ↦
          let d = deliver-deferred packet c blocked in
          (
            record { words = rw d.0 f.window.words; within = rw d.0 f.window.within },
            λ more. ground (arith, d.1),
          )
    ]

-- The FIN takes one place of the window.
eof-InWindow :
    (c : TcpConnection) → InWindow c → 0 < remaining_client_window c.tcb → InWindow (eof c)
eof-InWindow c w some_room =
    let r = remaining_client_window-in_flight c.tcb w.words in
    unfold eof send_empty_packet_to_client in
    record {
      words = record {
        sequence_word = omega arith;
        their_word = w.words.their_word;
        window_word = w.words.window_word;
      };
      within =
          omega
            (arith, r, w.within, w.words.sequence_word, w.words.their_word, w.words.window_word);
    }

-- After the answer of the socket to one read.
answer-Flowing :
    (answer : IoResult (List ℕ)) (c : TcpConnection)
    → Flowing c
    → 0 < remaining_client_window c.tcb
    → ((bytes : List ℕ)
        → answer ≡ ok bytes
        → length bytes ≤ min (remaining_client_window c.tcb) max_payload_length)
    → let (r, p) = read_answer answer c.network_to_client in
      let (c', round) = received r (record c { network_to_client = p }) in
      InWindow c' × (round ≡ again → Flowing c')
unfolding read_answer received
answer-Flowing (ok []) c f some_room limit = (eof-InWindow c f.window some_room, λ more. cc more)
answer-Flowing (ok (b ∷ bytes)) c f some_room limit =
    let few = limit (b ∷ bytes) refl in
    let made =
      build-IsPacketOf (b ∷ bytes) c.network_to_client f.laid_out (omega (arith, few, f.small)) in
    deliver-Flowing _ _ (b ∷ bytes)
      (record {
        window = record { words = f.window.words; within = f.window.within };
        laid_out = made.laid_out;
        small = rw made.same_place f.small;
      })
      (bytes_behind-payload _ made.carries) (omega (arith, few))
answer-Flowing would_block c f some_room limit = (f.window, λ more. f)
answer-Flowing failed c f some_room limit =
    unfold close send_empty_packet_to_client in
    (record { words = f.window.words; within = f.window.within }, λ more. cc more)

-- What the socket promises of a read: no more bytes than were asked for.
abbrev pub IsRead : (ℕ → IoResult (List ℕ)) → Type 0
IsRead read = (room : ℕ) (bytes : List ℕ) → read room ≡ ok bytes → length bytes ≤ room

chunk_le : (limit room : ℕ) → chunk (some limit) room ≤ limit
unfolding chunk
chunk_le limit room = omega arith

receive_one-Flowing :
    (read : ℕ → IoResult (List ℕ)) (c : TcpConnection)
    → IsRead read
    → Flowing c
    → 0 < remaining_client_window c.tcb
    → InWindow (receive_one read c).0
      × ((receive_one read c).1 ≡ again → Flowing (receive_one read c).0)
unfolding receive_one packetize_read
receive_one-Flowing read c honest f some_room =
    let p = update_headers c.tcb 24 (advertised_window c) c.network_to_client in
    let u =
      update_headers-IsLaidOut c.tcb 24 (advertised_window c) c.network_to_client f.laid_out in
    answer-Flowing
      (read (
        chunk (some (min (remaining_client_window c.tcb) max_payload_length))
          (length p.buffer - p.payload_index)))
      (record c { network_to_client = p })
      (record {
        window = record { words = f.window.words; within = f.window.within };
        laid_out = u.0;
        small = rw u.1 f.small;
      })
      some_room
      (λ bytes e. omega (
        arith,
        honest _ bytes e,
        chunk_le (min (remaining_client_window c.tcb) max_payload_length)
            (length p.buffer - p.payload_index),
      ))

Round-cases : (r : Round) → (r ≡ again) ⊎ ((p : Bool) × (r ≡ leave p))
Round-cases again = inl refl
Round-cases (leave p) = inr (p, refl)

receive_loop-InWindow :
    (read : ℕ → ℕ → IoResult (List ℕ)) (left i : ℕ) (progress : Bool) (c : TcpConnection)
    → ((k : ℕ) → IsRead (read k))
    → Flowing c
    → InWindow (receive_loop read left i progress c).0
unfolding receive_loop
receive_loop-InWindow read zero i progress c honest f = unfold receive_loop in f.window
receive_loop-InWindow read (suc left) i progress c honest f =
    elim (Bool-cases (is_some c.packet_for_client_length || remaining_client_window c.tcb == 0)) [
      | inl stop ↦ rw (receive_loop, stop) f.window
      | inr on ↦
          let one = receive_one-Flowing (read i) c (honest i) f (ground arith) in
          elim (Round-cases (receive_one (read i) c).1) [
            | inl more ↦
                rw (receive_loop, on, more)
                  (receive_loop-InWindow read left (i + 1) true _ honest (one.1 more))
            | inr (p, stop) ↦ rw (receive_loop, on, stop) one.0
          ]
    ]

-- Let the numbers of the control block be machine words, no more than the window be in flight, and the
-- packetizer be laid out with room for the largest payload. Then, for a socket that never gives more
-- bytes than were asked for, the bytes in flight are within the device's window after the receive
-- loop of one poll: payloads that are sent, the packet that is deferred, the FIN at the end of the
-- stream, and the reset on an error.
pub process_receive-InWindow :
    (read : ℕ → ℕ → IoResult (List ℕ)) (c : TcpConnection)
    → ((k : ℕ) → IsRead (read k))
    → Flowing c
    → InWindow (process_receive read c).0
unfolding process_receive
process_receive-InWindow read c honest f = receive_loop-InWindow read 32 0 false c honest f
