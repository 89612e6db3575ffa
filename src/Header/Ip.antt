-- ===== src/Header/Ip.antt =====
-- relay-rust/src/relay/ip_header.rs: a header of either version.
use gnirehtet.Base.{ℕ, ◌+◌, ◌-◌, ◌^◌, List, u16}
use gnirehtet.Header.Ipv4
use gnirehtet.Header.Ipv4.{Protocol, Ipv4HeaderData, Ipv4Header}
use gnirehtet.Header.Ipv6
use gnirehtet.Header.Ipv6.{Ipv6HeaderData, Ipv6Header, ipv6_header_length}

pub data IpHeaderData : Type 0 where
  v4 : Ipv4HeaderData → IpHeaderData
  v6 : Ipv6HeaderData → IpHeaderData

-- `std::net::IpAddr`: a `u32`, or sixteen octets.
pub data IpAddr : Type 0 where
  ipv4 : ℕ → IpAddr
  ipv6 : List ℕ → IpAddr

unfoldable pub protocol : IpHeaderData → Protocol
protocol (v4 d) = d.protocol
protocol (v6 d) = d.next_header

unfoldable pub total_length : IpHeaderData → ℕ
unfolding Ipv6.total_length
total_length (v4 d) = d.total_length
total_length (v6 d) = Ipv6.total_length d

unfoldable pub header_length : IpHeaderData → ℕ
header_length (v4 d) = d.header_length
header_length (v6 d) = ipv6_header_length

unfoldable pub source : IpHeaderData → IpAddr
source (v4 d) = ipv4 d.source
source (v6 d) = ipv6 d.source

unfoldable pub destination : IpHeaderData → IpAddr
destination (v4 d) = ipv4 d.destination
destination (v6 d) = ipv6 d.destination

pub data IpHeader : Type 0 where
  h4 : Ipv4Header → IpHeader
  h6 : Ipv6Header → IpHeader

unfoldable pub raw : IpHeader → List ℕ
raw (h4 h) = h.raw
raw (h6 h) = h.raw

unfoldable pub data_clone : IpHeader → IpHeaderData
data_clone (h4 h) = v4 h.info
data_clone (h6 h) = v6 h.info

-- For IPv6 the `u16` difference wraps in a release build.
unfoldable pub set_total_length : ℕ → IpHeader → IpHeader
unfolding Ipv4.set_total_length Ipv6.set_payload_length
set_total_length n (h4 h) = h4 (Ipv4.set_total_length n h)
set_total_length n (h6 h) = h6 (Ipv6.set_payload_length (u16 (n + 2 ^ 16 - ipv6_header_length)) h)

unfoldable pub swap_source_and_destination : IpHeader → IpHeader
unfolding Ipv4.swap_source_and_destination Ipv6.swap_source_and_destination
swap_source_and_destination (h4 h) = h4 (Ipv4.swap_source_and_destination h)
swap_source_and_destination (h6 h) = h6 (Ipv6.swap_source_and_destination h)

unfoldable pub update_checksum : IpHeader → IpHeader
unfolding Ipv4.update_checksum
update_checksum (h4 h) = h4 (Ipv4.update_checksum h)
update_checksum (h6 h) = h6 h
