-- ===== src/TcpConnection/Window.antt =====
-- The device's receive window and the data in flight to it.
use gnirehtet.Base.{ℕ, ◌+◌, ◌-◌, ◌≤◌, ◌<◌, ◌^◌, ◌≡◌, arith, add32, sub32, length, List, some, ok}
use gnirehtet.TcpConnection.State.{Tcb, TcpConnection, remaining_client_window}
use gnirehtet.TcpConnection.Poll.{deliver, payload_of}
use gnirehtet.SharedBuffer
use gnirehtet.IpPacket.{IpPacket, bytes_behind}

-- The bytes sent to the device that it has not acknowledged.
abbrev pub in_flight : Tcb → ℕ
in_flight t = sub32 t.sequence_number t.their_acknowledgement_number

-- The fields are machine words.
pub record IsTcb (t : Tcb) : Type 0 where
  pub sequence_word : t.sequence_number < 2 ^ 32
  pub their_word : t.their_acknowledgement_number < 2 ^ 32
  pub window_word : t.client_window < 2 ^ 16

-- For sequence numbers of 32 bits and a window of 16, wherever they wrap, the remaining window is the window less the bytes in flight, and
-- nothing if more than the window is in flight.
pub remaining_client_window-in_flight :
    (t : Tcb) → IsTcb t → remaining_client_window t ≡ t.client_window - in_flight t
unfolding remaining_client_window
remaining_client_window-in_flight t v = ground (arith, v.sequence_word, v.their_word, v.window_word)

-- For the same words, and no more than the window in flight: a packet that is sent at once with a payload within the remaining window keeps the bytes in
-- flight within the window, and the remaining window shrinks by exactly the payload.
pub deliver-window :
    (packet : IpPacket) (c : TcpConnection) (bytes : List ℕ)
    → IsTcb c.tcb
    → in_flight c.tcb ≤ c.tcb.client_window
    → bytes_behind packet ≡ some bytes
    → length bytes ≤ remaining_client_window c.tcb
    → (SharedBuffer.send_to_client c.buffer packet).1 ≡ ok tt
    → let c' = (deliver packet c).0 in
      IsTcb c'.tcb
      × (in_flight c'.tcb ≤ c'.tcb.client_window)
      × (remaining_client_window c'.tcb + length bytes ≡ remaining_client_window c.tcb)
deliver-window packet c bytes v within e few sent =
    let r = remaining_client_window-in_flight c.tcb v in
    let moved : (deliver packet c).0.tcb
        ≡ record c.tcb { sequence_number = add32 c.tcb.sequence_number (length bytes) } =
      unfold deliver payload_of in ground arith in
    let valid : IsTcb
        (record c.tcb { sequence_number = add32 c.tcb.sequence_number (length bytes) }) =
      record {
        sequence_word = omega arith;
        their_word = v.their_word;
        window_word = v.window_word;
      } in
    let r' = remaining_client_window-in_flight _ valid in
    rw moved (
      valid,
      omega (arith, v.sequence_word, v.their_word, v.window_word, r),
      omega (arith, v.sequence_word, v.their_word, v.window_word, r, r'),
    )
