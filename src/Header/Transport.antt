-- ===== src/Header/Transport.antt =====
-- relay-rust/src/relay/transport_header.rs: a TCP or UDP header.
use gnirehtet.Base.{ℕ, List, Option, none, some, Outcome, done, ◌>>=◌}
use gnirehtet.Header.Ipv4.{Protocol, tcp, udp, icmp, other}
use gnirehtet.Header.Ip.{IpHeaderData}
use gnirehtet.Header.Udp
use gnirehtet.Header.Udp.{UdpHeaderData, UdpHeader, udp_header_length}
use gnirehtet.Header.Tcp
use gnirehtet.Header.Tcp.{TcpHeaderData, TcpHeader}

pub data TransportHeaderData : Type 0 where
  dtcp : TcpHeaderData → TransportHeaderData
  dudp : UdpHeaderData → TransportHeaderData

unfoldable pub parse : Protocol → List ℕ → Outcome (Option TransportHeaderData)
parse udp raw = do d ← Udp.parse raw; done (some (dudp d))
parse tcp raw = do d ← Tcp.parse raw; done (some (dtcp d))
parse icmp raw = done none
parse other raw = done none

unfoldable pub source_port : TransportHeaderData → ℕ
source_port (dtcp d) = d.source_port
source_port (dudp d) = d.source_port

unfoldable pub destination_port : TransportHeaderData → ℕ
destination_port (dtcp d) = d.destination_port
destination_port (dudp d) = d.destination_port

unfoldable pub header_length : TransportHeaderData → ℕ
header_length (dtcp d) = d.header_length
header_length (dudp d) = udp_header_length

pub data TransportHeader : Type 0 where
  htcp : TcpHeader → TransportHeader
  hudp : UdpHeader → TransportHeader

-- `bind` and `bind_mut`.
unfoldable pub bind : TransportHeaderData → List ℕ → TransportHeader
bind (dtcp d) raw = htcp (record { raw = raw; info = d })
bind (dudp d) raw = hudp (record { raw = raw; info = d })

unfoldable pub raw : TransportHeader → List ℕ
raw (htcp h) = h.raw
raw (hudp h) = h.raw

unfoldable pub data_clone : TransportHeader → TransportHeaderData
data_clone (htcp h) = dtcp h.info
data_clone (hudp h) = dudp h.info

unfoldable pub swap_source_and_destination : TransportHeader → TransportHeader
unfolding Tcp.swap_source_and_destination Udp.swap_source_and_destination
swap_source_and_destination (htcp h) = htcp (Tcp.swap_source_and_destination h)
swap_source_and_destination (hudp h) = hudp (Udp.swap_source_and_destination h)

-- TCP does not store its payload length.
unfoldable pub set_payload_length : ℕ → TransportHeader → TransportHeader
unfolding Udp.set_payload_length
set_payload_length n (htcp h) = htcp h
set_payload_length n (hudp h) = hudp (Udp.set_payload_length n h)

unfoldable pub update_checksum : IpHeaderData → List ℕ → TransportHeader → TransportHeader
unfolding Tcp.update_checksum Udp.update_checksum
update_checksum ip payload (htcp h) = htcp (Tcp.update_checksum ip payload h)
update_checksum ip payload (hudp h) = hudp (Udp.update_checksum h)
