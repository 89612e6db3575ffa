-- ===== src/TcpConnection/Create.antt =====
-- A new connection, for the packet that opens the flow.
use gnirehtet.Base.{◌*◌, false, none, take, Outcome, done, panic}
use gnirehtet.StreamBuffer
use gnirehtet.Header.Ip.{IpHeader}
use gnirehtet.Header.Tcp
use gnirehtet.Header.Tcp.{TcpHeader}
use gnirehtet.Header.Transport.{TransportHeader, htcp, hudp}
use gnirehtet.Packetizer
use gnirehtet.SharedBuffer.{SharedBuffer}
use gnirehtet.TcpConnection.State.{TcpConnection, new_tcb}

-- The reference header without its options.
shrunk : TcpHeader → TcpHeader
unfolding Tcp.shrink_options
shrunk h = Tcp.shrink_options (record h { raw = take 20 h.raw })

-- `TcpConnection::create`, once its socket is open. A UDP header panics.
unfoldable pub create : SharedBuffer → IpHeader → TransportHeader → Outcome TcpConnection
unfolding shrunk Packetizer.new new_tcb
create buffer ip (hudp h) = panic
create buffer ip (htcp h) = done (record {
  buffer = buffer;
  client_to_network = StreamBuffer.new (32 * Packetizer.max_packet_length);
  network_to_client = Packetizer.new ip (htcp (shrunk h));
  packet_for_client_length = none;
  closed = false;
  tcb = new_tcb;
  bytes_sent = 0;
  bytes_received = 0;
})
