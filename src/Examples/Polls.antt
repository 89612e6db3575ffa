-- ===== src/Examples/Polls.antt =====
-- The window, the receive loop and the poll at concrete inputs.
use gnirehtet.Base.{
  ℕ, ◌≤◌, ◌<◌, ◌++◌, ◌≡◌, refl, arith, List, [], ◌∷◌, some, length, length-take, take, IoResult, ok,
  would_block, failed, ap, add32,
}
use gnirehtet.StreamBuffer
use gnirehtet.SharedBuffer
use gnirehtet.Packetizer.{inflate}
use gnirehtet.SharedBuffer.{SharedBuffer}
use gnirehtet.Header.Ip
use gnirehtet.IpPacket.{packet_length}
use gnirehtet.TcpConnection.State.{established, TcpConnection}
use gnirehtet.TcpConnection.Poll.{Answers, deliver, flush_pending_packet, process_receive}
use gnirehtet.StreamBuffer.Contents.{new-IsValid, contents}
use gnirehtet.TcpConnection.Send.{send_empty_packet_to_client}
use gnirehtet.TcpConnection.Overwritten.{flush_overwritten}
use gnirehtet.TcpConnection.Window.{IsTcb}
use gnirehtet.TcpConnection.Receive.{InWindow, Flowing, IsRead, process_receive-InWindow}
use gnirehtet.TcpConnection.Faults.{deferred_packet-sequence, drained_to}
use gnirehtet.Examples.Samples.{packet, connection, packetizer-IsLaidOut}

abbrev opened : TcpConnection
opened = connection 100 established

opened-IsTcb : IsTcb opened.tcb
opened-IsTcb = record {
  sequence_word = omega arith;
  their_word = omega arith;
  window_word = omega arith;
}

opened-InWindow : InWindow opened
opened-InWindow = record { words = opened-IsTcb; within = omega arith }

opened-Flowing : Flowing opened
opened-Flowing = record {
  window = opened-InWindow;
  laid_out = packetizer-IsLaidOut;
  small = omega arith;
}

-- A socket that has five bytes for every round.
abbrev five_bytes : ℕ → ℕ → IoResult (List ℕ)
five_bytes round room = ok (take room (1 ∷ 2 ∷ 3 ∷ 4 ∷ 5 ∷ []))

abbrev bytes_of : IoResult (List ℕ) → List ℕ
bytes_of (ok xs) = xs
bytes_of would_block = []
bytes_of failed = []

five_bytes-IsRead : (round : ℕ) → IsRead (five_bytes round)
five_bytes-IsRead round room xs e =
    let same : take room (1 ∷ 2 ∷ 3 ∷ 4 ∷ 5 ∷ []) ≡ xs = ap bytes_of e in
    omega (arith, length-take {A = ℕ} room (1 ∷ 2 ∷ 3 ∷ 4 ∷ 5 ∷ []), ap length same)

process_receive-InWindow_example : InWindow (process_receive five_bytes opened).0
process_receive-InWindow_example =
    process_receive-InWindow five_bytes opened five_bytes-IsRead opened-Flowing

abbrev answers : Answers
answers = record { write = λ raw. ok (length raw); read = five_bytes; connect = ok 0 }

-- The same connection, before a device that takes nothing.
abbrev full : TcpConnection
full = connection 10 established

packet-deferred : (SharedBuffer.send_to_client full.buffer packet).1 ≡ would_block
unfolding SharedBuffer.send_to_client packet_length Ip.total_length StreamBuffer.new
    StreamBuffer.remaining StreamBuffer.capacity StreamBuffer.size
packet-deferred = refl

packet-flushed : (flush_pending_packet (drained_to opened.buffer (deliver packet full).0)).1 ≡ ok tt
unfolding flush_pending_packet deliver inflate SharedBuffer.send_to_client packet_length
    Ip.total_length StreamBuffer.new StreamBuffer.remaining StreamBuffer.capacity StreamBuffer.size
packet-flushed = refl

deferred_packet-sequence_example :
    let later = drained_to opened.buffer (deliver packet full).0 in
    (later.tcb.sequence_number ≡ full.tcb.sequence_number)
    × ((flush_pending_packet later).0.tcb.sequence_number
        ≡ add32 full.tcb.sequence_number (packet_length packet))
deferred_packet-sequence_example =
    deferred_packet-sequence packet full opened.buffer packet-deferred packet-flushed

-- A packet of 43 bytes is deferred.
abbrev deferring : TcpConnection
deferring = record full { packet_for_client_length = some 43 }

drained_room : 43 ≤ StreamBuffer.remaining opened.buffer.stream
unfolding StreamBuffer.new StreamBuffer.remaining StreamBuffer.capacity StreamBuffer.size
drained_room = omega arith

flush_overwritten_example :
    let later = drained_to opened.buffer (send_empty_packet_to_client 16 deferring) in
    let packet = inflate 43 later.network_to_client in
    ((flush_pending_packet later).1 ≡ ok tt)
    × (contents (flush_pending_packet later).0.buffer.stream
        ≡ contents opened.buffer.stream ++ packet.raw)
    × (length packet.raw ≡ 43)
    × (packet_length packet ≡ deferring.network_to_client.payload_index)
    × (packet_length packet < length packet.raw)
flush_overwritten_example =
    flush_overwritten 16 43 deferring opened.buffer packetizer-IsLaidOut refl (omega arith)
      (omega arith) refl (new-IsValid 100) drained_room
