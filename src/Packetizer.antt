-- ===== src/Packetizer.antt =====
-- relay-rust/src/relay/packetizer.rs: payloads from a socket get the headers of the reference
-- packet, with source and destination exchanged.
pub mod Layout
pub mod Build
pub mod Read
use gnirehtet.Base.{
  ℕ, ◌+◌, ◌-◌, ◌^◌, ◌%◌, List, [], ◌∷◌, ◌++◌, Option, none, some, length, take, drop, slice, splice,
  replicate, u16, min, IoResult, ok, would_block, failed,
}
use gnirehtet.Header.Ip
use gnirehtet.Header.Ip.{IpHeaderData, IpHeader}
use gnirehtet.Header.Transport
use gnirehtet.Header.Transport.{TransportHeaderData, TransportHeader}
use gnirehtet.IpPacket
use gnirehtet.IpPacket.{IpPacket, bind_ip, compute_checksums}

abbrev pub max_packet_length : ℕ
max_packet_length = 2 ^ 16

pub record Packetizer : Type 0 where
  pub buffer : List ℕ
  pub transport_index : ℕ
  pub payload_index : ℕ
  pub ip_header_data : IpHeaderData
  pub transport_header_data : TransportHeaderData

-- `ip_header_mut` and `transport_header_mut`: the headers bound to their part of the buffer.
unfoldable pub ip_header : Packetizer → IpHeader
ip_header p = bind_ip p.ip_header_data (take p.transport_index p.buffer)

unfoldable pub transport_header : Packetizer → TransportHeader
transport_header p =
    Transport.bind p.transport_header_data (slice p.transport_index p.payload_index p.buffer)

-- What a change through such a header leaves in the packetizer.
unfoldable pub put_ip_header : IpHeader → Packetizer → Packetizer
put_ip_header h p = record p {
  buffer = splice 0 (Ip.raw h) p.buffer;
  ip_header_data = Ip.data_clone h;
}

unfoldable pub put_transport_header : TransportHeader → Packetizer → Packetizer
put_transport_header h p = record p {
  buffer = splice p.transport_index (Transport.raw h) p.buffer;
  transport_header_data = Transport.data_clone h;
}

-- `Packetizer::new`.
unfoldable pub new : IpHeader → TransportHeader → Packetizer
unfolding Ip.data_clone Ip.header_length Ip.raw Ip.swap_source_and_destination Transport.data_clone
    Transport.header_length Transport.raw Transport.swap_source_and_destination
new ip transport =
    let transport_index = Ip.header_length (Ip.data_clone ip) in
    let payload_index =
      transport_index + Transport.header_length (Transport.data_clone transport) in
    let ip' = Ip.swap_source_and_destination ip in
    let transport' = Transport.swap_source_and_destination transport in
    record {
      buffer =
          Ip.raw ip'
          ++ (Transport.raw transport' ++ replicate (max_packet_length - payload_index) 0);
      transport_index = transport_index;
      payload_index = payload_index;
      ip_header_data = Ip.data_clone ip';
      transport_header_data = Transport.data_clone transport';
    }

-- The lengths in both headers. The `u16` sum wraps in a release build.
pub set_lengths : ℕ → Packetizer → Packetizer
set_lengths payload_length p =
    let total_length = u16 (p.payload_index + payload_length) in
    let p' = put_ip_header (Ip.set_total_length total_length (ip_header p)) p in
    put_transport_header (Transport.set_payload_length payload_length (transport_header p')) p'

-- The packet of `packet_length` bytes at the front of the buffer.
unfoldable pub inflate : ℕ → Packetizer → IpPacket
inflate packet_length p = record {
  raw = take packet_length p.buffer;
  ip_header_data = p.ip_header_data;
  transport_header_data = some p.transport_header_data;
}

-- `build`: the packet, and the packetizer whose buffer it borrows and has changed.
unfoldable pub build : ℕ → Packetizer → IpPacket × Packetizer
build payload_length p =
    let total_length = u16 (p.payload_index + payload_length) in
    let p' = set_lengths payload_length p in
    let packet = compute_checksums (inflate total_length p') in
    (packet, record p' { buffer = splice 0 packet.raw p'.buffer })

unfoldable pub packetize_empty_payload : Packetizer → IpPacket × Packetizer
unfolding build
packetize_empty_payload = build 0

-- The bytes that a receive puts behind the headers.
unfoldable pub put_payload : List ℕ → Packetizer → Packetizer
put_payload bytes p = record p { buffer = splice p.payload_index bytes p.buffer }

unfoldable pub packetize_answer : IoResult (List ℕ) → Packetizer → IoResult IpPacket × Packetizer
packetize_answer (ok bytes) p =
    let (packet, p') = build (u16 (length bytes)) (put_payload bytes p) in (ok packet, p')
packetize_answer would_block p = (would_block, p)
packetize_answer failed p = (failed, p)

-- `packetize`: `recv` is the source's, given the room that it has; it returns what it received.
unfoldable pub packetize : (ℕ → IoResult (List ℕ)) → Packetizer → IoResult IpPacket × Packetizer
unfolding packetize_answer
packetize recv p = packetize_answer (recv (length p.buffer - p.payload_index)) p

-- `ReadAdapter::recv`: the room is cut to the chunk size, if there is one.
unfoldable pub chunk : Option ℕ → ℕ → ℕ
chunk none room = room
chunk (some max_chunk_size) room = min max_chunk_size room

-- Nothing read is the end of the stream.
unfoldable pub read_answer :
    IoResult (List ℕ) → Packetizer → IoResult (Option IpPacket) × Packetizer
read_answer (ok []) p = (ok none, p)
read_answer (ok (b ∷ bytes)) p =
    let (packet, p') = build (u16 (length (b ∷ bytes))) (put_payload (b ∷ bytes) p) in
    (ok (some packet), p')
read_answer would_block p = (would_block, p)
read_answer failed p = (failed, p)

-- `packetize_read`, from a `Read` source.
unfoldable pub packetize_read :
    (ℕ → IoResult (List ℕ)) → Option ℕ → Packetizer → IoResult (Option IpPacket) × Packetizer
unfolding chunk
packetize_read read max_chunk_size p =
    read_answer (read (chunk max_chunk_size (length p.buffer - p.payload_index))) p
