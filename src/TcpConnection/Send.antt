-- ===== src/TcpConnection/Send.antt =====
-- Packets without payload to the device.
use gnirehtet.Base.{ℕ}
use gnirehtet.Header.Tcp
use gnirehtet.Header.Tcp.{TcpHeader}
use gnirehtet.Header.Transport.{TransportHeader, htcp, hudp}
use gnirehtet.Packetizer
use gnirehtet.Packetizer.{Packetizer}
use gnirehtet.IpPacket.{IpPacket}
use gnirehtet.SharedBuffer
use gnirehtet.SharedBuffer.{SharedBuffer}
use gnirehtet.TcpConnection.State.{Tcb, TcpConnection, advertised_window}

-- The four fields that change from packet to packet. `tcp_header_of_transport_mut` panics for a UDP
-- header, which `create` never puts in.
unfoldable pub stamp : Tcb → ℕ → ℕ → TransportHeader → TransportHeader
unfolding Tcp.set_sequence_number Tcp.set_acknowledgement_number Tcp.set_flags Tcp.set_window
stamp tcb flags window (htcp h) = htcp (
    Tcp.set_window window (
      Tcp.set_flags flags (
        Tcp.set_acknowledgement_number tcb.acknowledgement_number
          (Tcp.set_sequence_number tcb.sequence_number h))))
stamp tcb flags window (hudp h) = hudp h

unfoldable pub update_headers : Tcb → ℕ → ℕ → Packetizer → Packetizer
unfolding stamp Packetizer.put_transport_header Packetizer.transport_header
update_headers tcb flags window p =
    Packetizer.put_transport_header (stamp tcb flags window (Packetizer.transport_header p)) p

unfoldable pub create_empty_response_packet : Packetizer → Tcb → ℕ → ℕ → IpPacket × Packetizer
unfolding update_headers Packetizer.packetize_empty_payload
create_empty_response_packet p tcb flags window =
    Packetizer.packetize_empty_payload (update_headers tcb flags window p)

-- A packet that finds no room is dropped.
unfoldable pub send_empty_packet_to_client : ℕ → TcpConnection → TcpConnection
send_empty_packet_to_client flags c =
    let (packet, p) =
      create_empty_response_packet c.network_to_client c.tcb flags (advertised_window c) in
    record c { network_to_client = p; buffer = (SharedBuffer.send_to_client c.buffer packet).0 }

-- Through the channel of the client, which holds the same cell.
unfoldable pub reply_empty_packet_to_client : ℕ → TcpConnection → TcpConnection
reply_empty_packet_to_client flags c =
    let (packet, p) =
      create_empty_response_packet c.network_to_client c.tcb flags (advertised_window c) in
    record c { network_to_client = p; buffer = (SharedBuffer.send_to_client c.buffer packet).0 }
