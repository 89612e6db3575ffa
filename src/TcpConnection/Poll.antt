-- ===== src/TcpConnection/Poll.antt =====
-- The network side: `poll_self` and what it calls. The socket's answers are arguments.
use gnirehtet.Base.{
  ℕ, zero, suc, ◌+◌, Bool, true, false, not, ◌||◌, ◌&&◌, List, Option, none, some, length, min,
  ◌==◌, if◌then◌else◌, IoResult, ok, would_block, failed, u32, u64,
}
use gnirehtet.StreamBuffer
use gnirehtet.Header.Tcp.{flag_rst, flag_ack}
use gnirehtet.IpPacket
use gnirehtet.IpPacket.{IpPacket, is_some}
use gnirehtet.Packetizer
use gnirehtet.SharedBuffer
use gnirehtet.TcpConnection.State.{
  TcpState, syn_sent, syn_received, fin_wait1, TcpConnection, close, set_state, add_sequence,
  add_acknowledgement, note_fin, advertised_window, may_read, may_write, remaining_client_window,
}
use gnirehtet.TcpConnection.Send.{send_empty_packet_to_client, update_headers}
use gnirehtet.TcpConnection.Segment.{do_handle_fin}

abbrev pub max_payload_length : ℕ
max_payload_length = 1460

abbrev pub max_packets_per_poll : ℕ
max_packets_per_poll = 32

-- What the socket answers during one poll: to a write of some bytes, to the read in each round of
-- the receive loop (given the room), and to the empty write that probes the connection.
pub record Answers : Type 0 where
  pub write : List ℕ → IoResult ℕ
  pub read : ℕ → ℕ → IoResult (List ℕ)
  pub connect : IoResult ℕ

-- A deferred packet is tried again. `len` is the length of the whole packet.
unfoldable pub flush_pending_packet : TcpConnection → TcpConnection × IoResult (Unit {0})
flush_pending_packet c = elim c.packet_for_client_length [
  | none ↦ (c, ok tt)
  | some len ↦
      let (b, r) =
        SharedBuffer.send_to_client c.buffer (Packetizer.inflate len c.network_to_client) in
      elim r [
        | ok _ ↦
            (add_sequence len (record c { buffer = b; packet_for_client_length = none }), ok tt)
        | would_block ↦ (record c { buffer = b }, would_block)
        | failed ↦ (record c { buffer = b }, failed)
      ]
]

unfoldable pub reset_and_close : TcpConnection → TcpConnection
unfolding close
reset_and_close c = close (send_empty_packet_to_client flag_rst c)

-- After a write of `w` bytes: the end of the stream, the FIN that waited for it, or an ACK.
unfoldable pub after_write : ℕ → TcpConnection → TcpConnection
unfolding close do_handle_fin
after_write w c =
    let c' = record c { bytes_sent = u64 (c.bytes_sent + w) } in
    if w == 0
    then close c
    else if c.tcb.fin_received && StreamBuffer.is_empty c.client_to_network
    then do_handle_fin c'
    else send_empty_packet_to_client flag_ack c'

unfoldable pub process_send :
    (List ℕ → IoResult ℕ) → TcpConnection → TcpConnection × IoResult (Unit {0})
unfolding after_write reset_and_close
process_send write c =
    let (b, r) = StreamBuffer.write_to write c.client_to_network in
    let c' = record c { client_to_network = b } in
    elim r [
      | ok w ↦ (after_write w c', ok tt)
      | would_block ↦ (c', would_block)
      | failed ↦ (reset_and_close c', ok tt)
    ]

-- The end of the network's stream: a FIN to the device. `17` is FIN and ACK.
unfoldable pub eof : TcpConnection → TcpConnection
eof c =
    set_state fin_wait1
      (add_sequence 1 (note_fin (send_empty_packet_to_client 17 (add_acknowledgement 1 c))))

-- What a round of the receive loop asks for: another round, or an end with or without progress.
pub data Round : Type 0 where
  again : Round
  leave : Bool → Round

-- A packet of the packetizer holds its headers (`IsBuilt`), so that the slice does not panic.
unfoldable pub payload_of : IpPacket → List ℕ
payload_of p = elim (IpPacket.bytes_behind p) [ none ↦ List.[] | some bytes ↦ bytes ]

-- A packet was read: it goes to the device now, or is deferred.
unfoldable pub deliver : IpPacket → TcpConnection → TcpConnection × Round
unfolding payload_of
deliver packet c =
    let n = length (payload_of packet) in
    let (b, r) = SharedBuffer.send_to_client c.buffer packet in
    let c' = record c { bytes_received = u64 (c.bytes_received + n); buffer = b } in
    elim r [
      | ok _ ↦ (add_sequence (u32 n) c', again)
      | would_block ↦ (
        record c' { packet_for_client_length = some (IpPacket.packet_length packet) },
        leave false,
      )
      | failed ↦ (
        record c' { packet_for_client_length = some (IpPacket.packet_length packet) },
        leave false,
      )
    ]

unfoldable pub received : IoResult (Option IpPacket) → TcpConnection → TcpConnection × Round
unfolding reset_and_close
received (ok none) c = (eof c, leave true)
received (ok (some packet)) c = deliver packet c
received would_block c = (c, leave false)
received failed c = (reset_and_close c, leave true)

-- One round. `24` is ACK and PSH.
unfoldable pub receive_one : (ℕ → IoResult (List ℕ)) → TcpConnection → TcpConnection × Round
unfolding received
receive_one read c =
    let chunk = min (remaining_client_window c.tcb) max_payload_length in
    let p = update_headers c.tcb 24 (advertised_window c) c.network_to_client in
    let (r, p') = Packetizer.packetize_read read (some chunk) p in
    received r (record c { network_to_client = p' })

unfoldable pub receive_loop :
    (ℕ → ℕ → IoResult (List ℕ)) → ℕ → ℕ → Bool → TcpConnection → TcpConnection × Bool
receive_loop read zero i progress c = (c, progress)
receive_loop read (suc left) i progress c =
    elim (is_some c.packet_for_client_length || remaining_client_window c.tcb == 0) [
      | true ↦ (c, progress)
      | false ↦
          let (c', round) = receive_one (read i) c in
          elim round [
            | again ↦ receive_loop read left (i + 1) true c'
            | leave p ↦ (c', progress || p)
          ]
    ]

abbrev pub progress_result : Bool → IoResult (Unit {0})
progress_result true = ok tt
progress_result false = would_block

unfoldable pub process_receive :
    (ℕ → ℕ → IoResult (List ℕ)) → TcpConnection → TcpConnection × IoResult (Unit {0})
unfolding receive_loop
process_receive read c =
    let (c', progress) = receive_loop read max_packets_per_poll 0 false c in
    (c', progress_result progress)

-- The socket is connected. `18` is SYN and ACK.
unfoldable pub process_connect : TcpConnection → TcpConnection
process_connect c = add_sequence 1 (send_empty_packet_to_client 18 (set_state syn_received c))

-- A stage of the poll either ends it with a result or hands on the connection and the progress.
pub data Stage : Type 0 where
  ends : TcpConnection → IoResult (Unit {0}) → Stage
  goes_on : TcpConnection → Bool → Stage

abbrev pub then_stage : Stage → (TcpConnection → Bool → Stage) → Stage
then_stage (ends c r) next = ends c r
then_stage (goes_on c progress) next = next c progress

-- How a stage takes a result: an error other than `would_block` resets the connection.
unfoldable pub after_io : Bool → TcpConnection × IoResult (Unit {0}) → Stage
unfolding reset_and_close
after_io progress (c, ok _) = goes_on c true
after_io progress (c, would_block) = goes_on c progress
after_io progress (c, failed) = ends (reset_and_close c) (ok tt)

unfoldable pub flush_stage : TcpConnection → Stage
unfolding flush_pending_packet
flush_stage c =
    if is_some c.packet_for_client_length
    then (let (c', r) = flush_pending_packet c in
        elim r [
          | ok _ ↦ goes_on c' true
          | would_block ↦ ends c' would_block
          | failed ↦ ends c' failed
        ])
    else goes_on c false

unfoldable pub send_stage : Answers → TcpConnection → Bool → Stage
unfolding may_write after_io process_send
send_stage a c progress =
    if may_write c then after_io progress (process_send a.write c) else goes_on c progress

unfoldable pub receive_stage : Answers → TcpConnection → Bool → Stage
unfolding may_read after_io process_receive
receive_stage a c progress =
    if not c.closed && may_read c
    then after_io progress (process_receive a.read c)
    else goes_on c progress

unfoldable pub connect_in_state : IoResult ℕ → TcpState → TcpConnection → Bool → Stage
unfolding close process_connect
connect_in_state (ok _) syn_sent c progress = goes_on (process_connect c) true
connect_in_state would_block syn_sent c progress = goes_on c progress
connect_in_state failed syn_sent c progress = ends (close c) (ok tt)
connect_in_state _ _ c progress = goes_on c progress

unfoldable pub connect_stage : Answers → TcpConnection → Bool → Stage
unfolding connect_in_state
connect_stage a c progress = connect_in_state a.connect c.tcb.state c progress

abbrev pub end_of : Stage → TcpConnection × IoResult (Unit {0})
end_of (ends c r) = (c, r)
end_of (goes_on c progress) = (c, progress_result progress)

-- `poll_self`. At its end a closed connection asks the client to remove it, which finds the client
-- borrowed by the loop that polls, and does nothing; the router removes it after the poll.
unfoldable pub poll_self : Answers → TcpConnection → TcpConnection × IoResult (Unit {0})
unfolding flush_stage send_stage receive_stage connect_stage
poll_self a c =
    if c.closed
    then (c, ok tt)
    else end_of (
        then_stage (then_stage (then_stage (flush_stage c) (send_stage a)) (receive_stage a))
          (connect_stage a))
