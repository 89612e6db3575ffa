-- ===== src/Examples/Samples.antt =====
-- Data for the examples.
use gnirehtet.Base.{
  ℕ, ◌^◌, refl, arith, false, [], ◌∷◌, none, some, length-replicate, replicate, ◌++◌,
}
use gnirehtet.StreamBuffer
use gnirehtet.Header.Ip
use gnirehtet.Header.Ip.{v4}
use gnirehtet.Header.Ipv4.{Ipv4HeaderData, tcp}
use gnirehtet.Header.Tcp.{TcpHeaderData}
use gnirehtet.Header.Transport
use gnirehtet.Header.Transport.{dtcp}
use gnirehtet.IpPacket.{IpPacket}
use gnirehtet.Packetizer.{Packetizer}
use gnirehtet.Packetizer.Layout.{IsLaidOut}
use gnirehtet.TcpConnection.State.{TcpState, Tcb, TcpConnection}

abbrev pub ip_data : Ipv4HeaderData
ip_data = record {
  version = 4;
  header_length = 20;
  total_length = 43;
  protocol = tcp;
  source = 0x08080808;
  destination = 0x0a000002;
}

-- `flags` and the sequence and acknowledgement numbers are the arguments.
abbrev pub segment : ℕ → ℕ → ℕ → TcpHeaderData
segment flags sequence acknowledgement = record {
  source_port = 1234;
  destination_port = 80;
  sequence_number = sequence;
  acknowledgement_number = acknowledgement;
  header_length = 20;
  flags = flags;
  window = 1000;
}

abbrev pub packetizer : Packetizer
packetizer = record {
  buffer = replicate (2 ^ 16) 0;
  transport_index = 20;
  payload_index = 40;
  ip_header_data = v4 ip_data;
  transport_header_data = dtcp (segment 16 0 0);
}

pub packetizer-IsLaidOut : IsLaidOut packetizer
unfolding Ip.header_length Transport.header_length
packetizer-IsLaidOut = record {
  full = length-replicate {A = ℕ} (2 ^ 16) 0;
  transport_at = refl;
  payload_at = refl;
  fits = omega arith;
}

-- A packet with three bytes behind its headers.
abbrev pub packet : IpPacket
packet = record {
  raw = 0x45 ∷ 0 ∷ 0 ∷ 43 ∷ (replicate 36 0 ++ (1 ∷ 2 ∷ 3 ∷ []));
  ip_header_data = v4 ip_data;
  transport_header_data = some (dtcp (segment 16 0 0));
}

abbrev pub tcb : TcpState → Tcb
tcb state = record {
  state = state;
  syn_sequence_number = 100;
  sequence_number = 5000;
  acknowledgement_number = 101;
  their_acknowledgement_number = 4990;
  fin_sequence_number = none;
  fin_received = false;
  client_window = 1000;
}

-- `room` is the capacity of the buffer to the device.
abbrev pub connection : ℕ → TcpState → TcpConnection
connection room state = record {
  buffer = record { stream = StreamBuffer.new room; borrowed = false };
  client_to_network = StreamBuffer.new 10;
  network_to_client = packetizer;
  packet_for_client_length = none;
  closed = false;
  tcb = tcb state;
  bytes_sent = 0;
  bytes_received = 0;
}
