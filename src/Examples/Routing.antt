-- ===== src/Examples/Routing.antt =====
-- The router at concrete inputs.
use gnirehtet.Base.{
  ℕ_discrete, subst, ◌≡◌, refl, arith, true, false, not, [], ◌∷◌, some, retain, get, would_block,
  done,
}
use gnirehtet.Header.Ip
use gnirehtet.Header.Ip.{IpAddr, ipv4}
use gnirehtet.Header.Transport
use gnirehtet.Header.Transport.{TransportHeaderData, dtcp}
use gnirehtet.IpPacket
use gnirehtet.IpPacket.{IpPacket}
use gnirehtet.SharedBuffer.{SharedBuffer}
use gnirehtet.StreamBuffer
use gnirehtet.TcpConnection.State.{established}
use gnirehtet.Connection.{ConnectionId, Connection, Moment, from_headers}
use gnirehtet.Connection.Identity
use gnirehtet.Connection.Identity.{same_id}
use gnirehtet.Connection.Flow
use gnirehtet.Connection.Flow.{Flow, FlowAnswers, tcp_flow, udp_flow, flow}
use gnirehtet.Router
use gnirehtet.Router.{Router, new, set_buffer, set_client_label, clear, evict, purge, is_quic}
use gnirehtet.Router.Keys.{IsValid}
use gnirehtet.Router.Reach.{registers, labels, removes, starts, steps, Reachable-IsValid}
use gnirehtet.Router.Flows.{send_to_network_absorbs, send_to_network_isolates}
use gnirehtet.Router.Expiry.{clean_expired_connections-retain}
use gnirehtet.Router.Sweep.{clean_after_poll}
use gnirehtet.DatagramBuffer
use gnirehtet.Packetizer
use gnirehtet.UdpConnection
use gnirehtet.Examples.Datagrams
use gnirehtet.Examples.Samples.{packet, connection, segment}

abbrev pub ops : Connection FlowAnswers Flow
ops = flow (λ _. true)

abbrev buffer : SharedBuffer
buffer = record { stream = StreamBuffer.new 100; borrowed = false }

abbrev header : TransportHeaderData
header = dtcp (segment 16 0 0)

abbrev packet_id : ConnectionId
packet_id = from_headers packet.ip_header_data header []

abbrev other_id : ConnectionId
other_id = record packet_id { source_port = 99 }

-- Two connections, and one flow that closed at 5.
abbrev router : Router Flow
router = record {
  registered = true;
  client_label = [];
  connections = (other_id, tcp_flow (connection 100 established)) ∷ [];
  recently_closed = (packet_id, 5) ∷ [];
}

abbrev moment : Moment
moment = record { now = 1000; random = 0 }

packet_echo : IpPacket.is_icmp_echo_request packet ≡ false
unfolding IpPacket.is_icmp_echo_request IpPacket.echo_request IpPacket.is_icmp IpPacket.is_echo_type
packet_echo = refl

packet_quic : is_quic packet ≡ false
unfolding is_quic Ip.protocol
packet_quic = refl

packet_closed : get same_id packet_id router.recently_closed ≡ some 5
packet_closed = rw ((same_id.eq_iff packet_id packet_id).1 refl) refl

send_to_network_absorbs_example :
    Router.send_to_network ops moment 2000 packet buffer router ≡ done (buffer, purge 1000 router)
send_to_network_absorbs_example =
    send_to_network_absorbs ops moment 2000 packet buffer header router 5 packet_echo packet_quic
      refl packet_closed (omega arith)

Reachable-IsValid_example :
    IsValid
      (Router.remove_flow 9 packet_id (set_client_label (1 ∷ []) (set_buffer (new {C = Flow}))))
Reachable-IsValid_example =
    Reachable-IsValid ops
      (Router.remove_flow 9 packet_id (set_client_label (1 ∷ []) (set_buffer new)))
      (steps (steps (steps starts registers) (labels (1 ∷ []))) (removes 9 packet_id))

other_differs : same_id.eq other_id packet_id ≡ false
unfolding same_id Identity.is_yes Identity.ConnectionId-discrete from_headers Ip.source
    Ip.destination Ip.protocol Transport.source_port Transport.destination_port ℕ_discrete
other_differs = refl

router-IsValid : IsValid router
router-IsValid = record {
  unique = (refl, tt);
  unique_closed = (refl, tt);
  apart = (rw other_differs refl, tt);
}

absorbed :
    Router.send_to_network ops moment 2000 packet buffer router ≡ done (buffer, purge 1000 router)
absorbed =
    send_to_network_absorbs ops moment 2000 packet buffer header router 5 packet_echo packet_quic
      refl packet_closed (omega arith)

other_than_packet :
    (t : TransportHeaderData)
    → packet.transport_header_data ≡ some t
    → same_id.eq other_id (from_headers packet.ip_header_data t router.client_label) ≡ false
other_than_packet t e =
    let same : header ≡ t = cc e in
    subst (λ x. same_id.eq other_id (from_headers packet.ip_header_data x []) ≡ false) same
      other_differs

send_to_network_isolates_example :
    get same_id other_id (purge 1000 router).connections ≡ get same_id other_id router.connections
send_to_network_isolates_example =
    send_to_network_isolates ops other_id moment 2000 packet buffer router
      (buffer, purge 1000 router) other_than_packet absorbed

clean_expired_connections-retain_example :
    (Router.clean_expired_connections ops 7 (λ _. 8) router).connections
    ≡ retain (λ e. not (Flow.is_expired 7 e.1)) router.connections
unfolding flow
clean_expired_connections-retain_example =
    clean_expired_connections-retain ops 7 (λ _. 8) router router-IsValid

abbrev closed_router : Router Flow
closed_router = record router {
  connections = (other_id, tcp_flow (record (connection 100 established) { closed = true })) ∷ [];
}

abbrev pub socket : FlowAnswers
socket = record {
  now = 9;
  tcp_socket = record {
    write = λ _. would_block;
    read = λ _ _. would_block;
    connect = would_block;
  };
  udp_socket = record { send = λ _. would_block; recv = λ _. would_block };
}

abbrev polled : SharedBuffer × Router Flow
polled = (buffer, Router.evict_all (λ _. 8) (other_id ∷ []) closed_router)

-- A UDP flow that has been idle since 7 is polled at 1000.
abbrev udp_router : Router Flow
udp_router = record router { connections = (other_id, udp_flow Datagrams.flow) ∷ [] }

abbrev later_socket : FlowAnswers
later_socket = record socket { now = 1000 }

abbrev udp_polled_router : Router Flow
udp_polled_router = record udp_router {
  connections = (other_id, udp_flow (record Datagrams.flow { idle_since = 1000 })) ∷ [];
}

udp_polls :
    Router.poll_connections ops (λ _. later_socket) (λ _. 8) buffer udp_router
    ≡ done (buffer, udp_polled_router)
unfolding Router.poll_connections Router.poll_all Router.after_poll Router.evict_all flow Flow.poll
    Flow.udp_polled Flow.is_closed UdpConnection.poll_self DatagramBuffer.is_empty
    DatagramBuffer.new UdpConnection.process_receive UdpConnection.received
    UdpConnection.receive_half UdpConnection.touch Packetizer.packetize Packetizer.packetize_answer
udp_polls = refl

clean_after_poll_example :
    Router.clean_expired_connections ops 301000000000 (λ _. 9) udp_polled_router ≡ udp_polled_router
clean_after_poll_example =
    clean_after_poll (λ _. true) 1000 301000000000 (omega arith) (λ _. later_socket) (λ _. 8)
      (λ _. 9) buffer udp_router (buffer, udp_polled_router) (λ _. refl) udp_polls
