-- ===== src/TcpConnection/Faults.antt =====
-- Two places where the sequence numbers go wrong.
use gnirehtet.Base.{
  ℕ, ◌^◌, ◌<◌, ◌≡◌, refl, arith, false, Option, some, List, ◌≢◌, length, ok, would_block, add32,
}
use gnirehtet.Header.Tcp.{TcpHeaderData, is_syn}
use gnirehtet.TcpConnection.State.{TcpConnection, init, fin_wait1}
use gnirehtet.TcpConnection.Send.{send_empty_packet_to_client}
use gnirehtet.TcpConnection.Segment.{handle_packet, handle_unexpected}
use gnirehtet.TcpConnection.Poll.{eof, flush_pending_packet, deliver, payload_of}
use gnirehtet.TcpConnection.Frame.{SameFlow, handle_packet_unexpected}
use gnirehtet.SharedBuffer
use gnirehtet.SharedBuffer.{SharedBuffer}
use gnirehtet.IpPacket.{IpPacket, packet_length, bytes_behind}

-- The end of the network's stream acknowledges one byte that the device has not sent. With a 32-bit
-- acknowledgement number, a segment without SYN that carries the sequence number that was expected before is then taken for a
-- repetition: an ACK is sent, and neither the control block nor the data changes, so that neither
-- the device's data nor its FIN nor its ACK of the relay's FIN has an effect.
pub eof_deaf :
    (isn : ℕ) (h : TcpHeaderData) (payload : Option (List ℕ)) (c : TcpConnection)
    → c.tcb.acknowledgement_number < 2 ^ 32
    → is_syn h ≡ false
    → h.sequence_number ≡ c.tcb.acknowledgement_number
    → SameFlow (eof c) (handle_packet isn h payload (eof c))
      × (handle_packet isn h payload (eof c) ≡ send_empty_packet_to_client 16 (eof c))
eof_deaf isn h payload c w plain seq = (
  handle_packet_unexpected isn h payload (eof c) opened plain other,
  unfold handle_packet handle_unexpected in ground (arith, waits, ack_moved),
)
  where
    ack_moved : (eof c).tcb.acknowledgement_number ≡ add32 c.tcb.acknowledgement_number 1
    ack_moved = unfold eof send_empty_packet_to_client in refl

    waits : (eof c).tcb.state ≡ fin_wait1
    waits = unfold eof in refl

    opened : (eof c).tcb.state ≢ init
    opened e = ground (arith, waits)

    other : h.sequence_number ≢ (eof c).tcb.acknowledgement_number
    other e = omega (arith, ack_moved)

-- The device has drained the shared buffer.
abbrev pub drained_to : SharedBuffer → TcpConnection → TcpConnection
drained_to b c = record c { buffer = b }

-- A packet that finds no room is deferred, and the sequence number stays. When it is flushed later,
-- into a buffer that has room, the sequence number moves on by the length of the whole packet,
-- headers included, where a packet sent at once counts its payload alone.
pub deferred_packet-sequence :
    (packet : IpPacket) (c : TcpConnection) (drained : SharedBuffer)
    → (SharedBuffer.send_to_client c.buffer packet).1 ≡ would_block
    → (flush_pending_packet (drained_to drained (deliver packet c).0)).1 ≡ ok tt
    → let later = drained_to drained (deliver packet c).0 in
      (later.tcb.sequence_number ≡ c.tcb.sequence_number)
      × ((flush_pending_packet later).0.tcb.sequence_number
          ≡ add32 c.tcb.sequence_number (packet_length packet))
unfolding flush_pending_packet deliver
deferred_packet-sequence packet c drained full sent = ground arith

-- A packet that is sent at once moves the sequence number on by the length of its payload, which is
-- a 32-bit word.
sent_packet-sequence :
    (packet : IpPacket) (c : TcpConnection) (bytes : List ℕ)
    → (SharedBuffer.send_to_client c.buffer packet).1 ≡ ok tt
    → bytes_behind packet ≡ some bytes
    → length bytes < 2 ^ 32
    → (deliver packet c).0.tcb.sequence_number ≡ add32 c.tcb.sequence_number (length bytes)
unfolding deliver payload_of
sent_packet-sequence packet c bytes sent e few = ground arith
