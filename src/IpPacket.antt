-- ===== src/IpPacket.antt =====
-- relay-rust/src/relay/ipv4_packet.rs and ip_packet.rs: an IP packet over the bytes that hold it.
-- `Ipv4Packet` and `Ipv6Packet` are one record, whose header data tells the version.
pub mod Checksums
use gnirehtet.Base.{
  ℕ, ◌+◌, ◌/◌, ◌^◌, Bool, true, false, ◌&&◌, List, [], ◌∷◌, ◌++◌, Option, none, some, length, take,
  drop, slice, get_elem?, leb, ◌==◌, if◌then◌else◌, Outcome, done, panic, ◌>>=◌, ◌>>◌, check,
}
use gnirehtet.Header.Ipv4
use gnirehtet.Header.Ipv4.{Protocol, tcp, udp, icmp, other, Ipv4HeaderData}
use gnirehtet.Header.Ipv6
use gnirehtet.Header.Ipv6.{Ipv6HeaderData, ipv6_header_length}
use gnirehtet.Header.Ip
use gnirehtet.Header.Ip.{IpHeaderData, v4, v6, IpHeader, h4, h6}
use gnirehtet.Header.Transport
use gnirehtet.Header.Transport.{TransportHeaderData, TransportHeader}

pub record IpPacket : Type 0 where
  pub raw : List ℕ
  pub ip_header_data : IpHeaderData
  pub transport_header_data : Option TransportHeaderData

-- `Ipv4Packet::parse`. Each slice panics where the fields point outside the bytes.
unfoldable pub parse_v4 : List ℕ → Outcome IpPacket
unfolding Ipv4.parse Transport.parse
parse_v4 raw = do
  d ← Ipv4.parse raw
  check (leb d.header_length (length raw))
  t ← Transport.parse d.protocol (drop d.header_length raw)
  check (leb d.total_length (length raw))
  done (record { raw = take d.total_length raw; ip_header_data = v4 d; transport_header_data = t })

-- `Ipv6Packet::parse`.
unfoldable pub parse_v6 : List ℕ → Outcome IpPacket
unfolding Ipv6.parse Transport.parse Ipv6.total_length
parse_v6 raw = do
  d ← Ipv6.parse raw
  let total = Ipv6.total_length d
  check (leb ipv6_header_length total && leb total (length raw))
  t ← Transport.parse d.next_header (slice ipv6_header_length total raw)
  done (record { raw = take total raw; ip_header_data = v6 d; transport_header_data = t })

-- `IpPacket::parse`: `none` for no bytes and for an unknown version.
unfoldable pub parse : List ℕ → Outcome (Option IpPacket)
unfolding parse_v4 parse_v6
parse [] = done none
parse (b ∷ rest) =
    if b / 2 ^ 4 == 4
    then (do p ← parse_v4 (b ∷ rest); done (some p))
    else if b / 2 ^ 4 == 6
    then (do p ← parse_v6 (b ∷ rest); done (some p))
    else done none

unfoldable pub is_icmp : Protocol → Bool
is_icmp icmp = true
is_icmp tcp = false
is_icmp udp = false
is_icmp other = false

unfoldable pub is_echo_type : Option ℕ → Bool
is_echo_type none = false
is_echo_type (some t) = t == 8

unfoldable pub echo_request : IpHeaderData → List ℕ → Bool
unfolding is_icmp is_echo_type
echo_request (v4 d) raw = is_icmp d.protocol && is_echo_type (get_elem? raw d.header_length)
echo_request (v6 d) raw = false

unfoldable pub is_icmp_echo_request : IpPacket → Bool
unfolding echo_request
is_icmp_echo_request p = echo_request p.ip_header_data p.raw

abbrev pub is_some {ℓ} : {A : Type ℓ} → Option A → Bool
is_some none = false
is_some (some a) = true

unfoldable pub is_valid : IpPacket → Bool
is_valid p = is_some p.transport_header_data

unfoldable pub packet_length : IpPacket → ℕ
packet_length p = Ip.total_length p.ip_header_data

-- The bytes behind both headers, if there is a transport header.
unfoldable pub bytes_behind : IpPacket → Option (List ℕ)
bytes_behind p = elim p.transport_header_data [
  | none ↦ none
  | some t ↦ some (drop (Ip.header_length p.ip_header_data + Transport.header_length t) p.raw)
]

-- Both headers lie in the packet, as far as it has them.
unfoldable pub holds_headers : IpPacket → Bool
holds_headers p = elim p.transport_header_data [
  | none ↦ true
  | some t ↦ leb (Ip.header_length p.ip_header_data + Transport.header_length t) (length p.raw)
]

-- `payload`. The slice panics where the headers are longer than the packet.
unfoldable pub payload : IpPacket → Outcome (Option (List ℕ))
unfolding bytes_behind holds_headers
payload p = check (holds_headers p) >> done (bytes_behind p)

-- `bind_mut` of the header data to the first bytes of the packet.
unfoldable pub bind_ip : IpHeaderData → List ℕ → IpHeader
bind_ip (v4 d) raw = h4 (record { raw = raw; info = d })
bind_ip (v6 d) raw = h6 (record { raw = raw; info = d })

-- `headers`. Each slice panics where the lengths point outside the packet.
unfoldable pub headers : IpPacket → Outcome (IpHeader × Option TransportHeader)
headers p = do
  let transport_index = Ip.header_length p.ip_header_data
  check (leb transport_index (length p.raw))
  let ip_header = bind_ip p.ip_header_data (take transport_index p.raw)
  elim p.transport_header_data [
    | none ↦ done (ip_header, none)
    | some t ↦
        let payload_index = transport_index + Transport.header_length t in
        check (leb payload_index (length p.raw))
        >> done (ip_header, some (Transport.bind t (slice transport_index payload_index p.raw)))
  ]

-- The packet's two headers get their checksums; IPv6 headers have none.
unfoldable pub compute_checksums : IpPacket → IpPacket
compute_checksums p =
    let ip = p.ip_header_data in
    let transport_index = Ip.header_length ip in
    let ip_header = Ip.update_checksum (bind_ip ip (take transport_index p.raw)) in
    elim p.transport_header_data [
      | none ↦ record p { raw = Ip.raw ip_header ++ drop transport_index p.raw }
      | some t ↦
          let payload_index = transport_index + Transport.header_length t in
          let bytes = drop payload_index p.raw in
          let header = Transport.bind t (slice transport_index payload_index p.raw) in
          record p {
            raw =
                Ip.raw ip_header
                ++ (Transport.raw (Transport.update_checksum ip bytes header) ++ bytes);
          }
    ]
