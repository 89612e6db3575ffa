-- ===== src/TcpConnection/Segment.antt =====
-- What the connection does with a packet from the device: `handle_packet` and what it calls.
use gnirehtet.Base.{
  ℕ, ◌^◌, Bool, true, false, List, [], ◌∷◌, Option, none, some, length, ltb, leb, ◌==◌,
  if◌then◌else◌, add32, sub32, u32, Outcome, done, panic, check, ◌>>=◌, ◌>>◌,
}
use gnirehtet.StreamBuffer
use gnirehtet.Header.Tcp.{TcpHeaderData, flag_rst, flag_ack, is_fin, is_syn, is_rst, is_ack}
use gnirehtet.Header.Transport.{TransportHeaderData, dtcp, dudp}
use gnirehtet.IpPacket
use gnirehtet.IpPacket.{IpPacket}
use gnirehtet.TcpConnection.State.{
  TcpState, init, syn_sent, syn_received, established, last_ack, closing, fin_wait1, fin_wait2,
  TcpConnection, close, set_state, add_sequence, add_acknowledgement, note_fin,
}
use gnirehtet.TcpConnection.Send.{send_empty_packet_to_client, reply_empty_packet_to_client}

-- `isn` is the random initial sequence number that a SYN draws.
unfoldable pub handle_first_packet : ℕ → TcpHeaderData → TcpConnection → TcpConnection
unfolding is_syn close
handle_first_packet isn h c =
    if is_syn h
    then record c {
      tcb = record c.tcb {
        acknowledgement_number = add32 h.sequence_number 1;
        syn_sequence_number = h.sequence_number;
        sequence_number = isn;
        client_window = h.window;
        state = syn_sent;
      };
    }
    else close (
        reply_empty_packet_to_client flag_rst
          (record c { tcb = record c.tcb { sequence_number = h.acknowledgement_number } }))

pub is_syn_sent : TcpState → Bool
is_syn_sent syn_sent = true
is_syn_sent _ = false

unfoldable pub handle_duplicate_syn : TcpHeaderData → TcpConnection → TcpConnection
unfolding is_syn_sent close
handle_duplicate_syn h c =
    if is_syn_sent c.tcb.state
    then record c {
      tcb = record c.tcb {
        syn_sequence_number = h.sequence_number;
        acknowledgement_number = add32 h.sequence_number 1;
      };
    }
    else if h.sequence_number == c.tcb.syn_sequence_number
    then c
    else close (reply_empty_packet_to_client flag_rst c)

-- The state is matched beside the connection that holds it.
unfoldable pub fin_in_state : TcpState → TcpConnection → TcpConnection
unfolding close
fin_in_state established c =
    set_state last_ack (add_sequence 1 (note_fin (send_empty_packet_to_client 17 c)))
fin_in_state fin_wait1 c = set_state closing (send_empty_packet_to_client flag_ack c)
fin_in_state fin_wait2 c = close (send_empty_packet_to_client flag_ack c)
fin_in_state init c = c
fin_in_state syn_sent c = c
fin_in_state syn_received c = c
fin_in_state last_ack c = c
fin_in_state closing c = c

-- The received FIN counts for one byte. `17` is FIN and ACK.
unfoldable pub do_handle_fin : TcpConnection → TcpConnection
unfolding fin_in_state
do_handle_fin c = fin_in_state c.tcb.state (add_acknowledgement 1 c)

-- A FIN waits until the data before it has gone to the network.
unfoldable pub handle_fin : TcpConnection → TcpConnection
handle_fin c =
    let c' = record c { tcb = record c.tcb { fin_received = true } } in
    if StreamBuffer.is_empty c.client_to_network then do_handle_fin c' else c'

unfoldable pub fin_ack_in_state : TcpState → TcpConnection → TcpConnection
unfolding close
fin_ack_in_state last_ack c = close c
fin_ack_in_state closing c = close c
fin_ack_in_state fin_wait1 c = set_state fin_wait2 c
fin_ack_in_state init c = c
fin_ack_in_state syn_sent c = c
fin_ack_in_state syn_received c = c
fin_ack_in_state established c = c
fin_ack_in_state fin_wait2 c = c

unfoldable pub handle_fin_ack : TcpConnection → TcpConnection
unfolding fin_ack_in_state
handle_fin_ack c = fin_ack_in_state c.tcb.state c

-- The payload of an expected segment: stored and acknowledged whole, or dropped whole.
unfoldable pub handle_payload : List ℕ → TcpConnection → TcpConnection
handle_payload bytes c =
    if ltb (StreamBuffer.remaining c.client_to_network) (length bytes)
    then send_empty_packet_to_client flag_ack c
    else send_empty_packet_to_client flag_ack (
        add_acknowledgement (u32 (length bytes))
          (record c { client_to_network = StreamBuffer.read_from c.client_to_network bytes }))

unfoldable pub data_of_ack : Option (List ℕ) → TcpConnection → TcpConnection
data_of_ack none c = c
data_of_ack (some []) c = c
data_of_ack (some (b ∷ bytes)) c = handle_payload (b ∷ bytes) c

-- The ACK that completes the handshake carries no data here: what it carries is not read.
unfoldable pub ack_in_state : TcpState → Option (List ℕ) → TcpConnection → TcpConnection
unfolding data_of_ack
ack_in_state syn_received payload c = set_state established c
ack_in_state init payload c = data_of_ack payload c
ack_in_state syn_sent payload c = data_of_ack payload c
ack_in_state established payload c = data_of_ack payload c
ack_in_state last_ack payload c = data_of_ack payload c
ack_in_state closing payload c = data_of_ack payload c
ack_in_state fin_wait1 payload c = data_of_ack payload c
ack_in_state fin_wait2 payload c = data_of_ack payload c

unfoldable pub handle_ack : Option (List ℕ) → TcpConnection → TcpConnection
unfolding ack_in_state
handle_ack payload c = ack_in_state c.tcb.state payload c

-- The sum `fin_sequence_number + 1` wraps in a release build.
unfoldable pub acks_fin : TcpHeaderData → Option ℕ → Bool
acks_fin h none = false
acks_fin h (some n) = h.acknowledgement_number == add32 n 1

unfoldable pub check_fin_ack : TcpHeaderData → TcpConnection → TcpConnection
unfolding acks_fin
check_fin_ack h c = if acks_fin h c.tcb.fin_sequence_number then handle_fin_ack c else c

-- The window and the acknowledgement that every expected segment brings.
unfoldable pub note_window : TcpHeaderData → TcpConnection → TcpConnection
note_window h c = record c {
  tcb = record c.tcb {
    client_window = h.window;
    their_acknowledgement_number = h.acknowledgement_number;
  };
}

-- The segment has the expected sequence number.
unfoldable pub handle_expected : TcpHeaderData → Option (List ℕ) → TcpConnection → TcpConnection
unfolding note_window close check_fin_ack
handle_expected h payload c =
    let c1 = note_window h c in
    let c2 = if is_ack h then handle_ack payload c1 else c1 in
    let c3 = if is_fin h then handle_fin c2 else c2 in
    if is_rst h then close c1 else check_fin_ack h c3

-- A segment that was acknowledged before is acknowledged again; one from the future is ignored.
unfoldable pub handle_unexpected : TcpHeaderData → TcpConnection → TcpConnection
handle_unexpected h c =
    if leb (2 ^ 31) (sub32 h.sequence_number c.tcb.acknowledgement_number)
    then send_empty_packet_to_client flag_ack c
    else c

unfoldable pub is_init : TcpState → Bool
is_init init = true
is_init _ = false

unfoldable pub handle_packet : ℕ → TcpHeaderData → Option (List ℕ) → TcpConnection → TcpConnection
unfolding is_init
handle_packet isn h payload c =
    if is_init c.tcb.state
    then handle_first_packet isn h c
    else if is_syn h
    then handle_duplicate_syn h c
    else if h.sequence_number == c.tcb.acknowledgement_number
    then handle_expected h payload c
    else handle_unexpected h c

-- `tcp_header_of_packet` panics on a packet that is not TCP.
unfoldable pub tcp_header_of : Option TransportHeaderData → Outcome TcpHeaderData
tcp_header_of none = panic
tcp_header_of (some (dudp d)) = panic
tcp_header_of (some (dtcp h)) = done h

-- `Connection::send_to_network`. The slice of the transport header panics where the headers are longer
-- than the packet; past it, the payload's slice does not.
unfoldable pub send_to_network : ℕ → IpPacket → TcpConnection → Outcome TcpConnection
unfolding tcp_header_of
send_to_network isn packet c = do
  check (IpPacket.holds_headers packet)
  h ← tcp_header_of packet.transport_header_data
  done (handle_packet isn h (IpPacket.bytes_behind packet) c)
