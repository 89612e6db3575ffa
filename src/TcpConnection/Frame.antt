-- ===== src/TcpConnection/Frame.antt =====
-- What sending to the device leaves alone, and what each handler may change.
use gnirehtet.Base.{ℕ, ◌≡◌, refl, arith, false, Option, List, ◌≢◌}
use gnirehtet.Header.Tcp.{TcpHeaderData, is_syn}
use gnirehtet.TcpConnection.State.{TcpConnection, init}
use gnirehtet.TcpConnection.Send.{send_empty_packet_to_client, reply_empty_packet_to_client}
use gnirehtet.TcpConnection.Segment.{handle_packet, handle_unexpected}

-- Only the packetizer and the shared buffer differ.
pub record SameFlow (c c' : TcpConnection) : Type 0 where
  pub same_tcb : c'.tcb ≡ c.tcb
  pub same_data : c'.client_to_network ≡ c.client_to_network
  pub same_pending : c'.packet_for_client_length ≡ c.packet_for_client_length
  pub same_closed : c'.closed ≡ c.closed

pub send_empty-SameFlow : (f : ℕ) (c : TcpConnection) → SameFlow c (send_empty_packet_to_client f c)
unfolding send_empty_packet_to_client
send_empty-SameFlow f c = record {
  same_tcb = refl;
  same_data = refl;
  same_pending = refl;
  same_closed = refl;
}

pub reply_empty-SameFlow :
    (f : ℕ) (c : TcpConnection) → SameFlow c (reply_empty_packet_to_client f c)
unfolding reply_empty_packet_to_client
reply_empty-SameFlow f c = record {
  same_tcb = refl;
  same_data = refl;
  same_pending = refl;
  same_closed = refl;
}

-- Outside the handshake, a segment without SYN whose sequence number is not the expected one
-- changes neither the control block nor the data that waits for the network, nor closes anything.
pub handle_packet_unexpected :
    (isn : ℕ) (h : TcpHeaderData) (payload : Option (List ℕ)) (c : TcpConnection)
    → c.tcb.state ≢ init
    → is_syn h ≡ false
    → h.sequence_number ≢ c.tcb.acknowledgement_number
    → SameFlow c (handle_packet isn h payload c)
unfolding handle_packet handle_unexpected
handle_packet_unexpected isn h payload c opened plain other =
    ground (arith, send_empty-SameFlow 16 c)
