-- ===== src/Header/Udp.antt =====
-- relay-rust/src/relay/udp_header.rs.
use gnirehtet.Base.{
  ℕ, ◌+◌, List, Outcome, done, panic, length, ltb, if◌then◌else◌, read_u16, write_u16, u16,
}
use gnirehtet.Header.Swap.{swap_fields}

abbrev pub udp_header_length : ℕ
udp_header_length = 8

pub record UdpHeaderData : Type 0 where
  pub source_port : ℕ
  pub destination_port : ℕ

-- It panics on a slice of fewer than 4 bytes.
unfoldable pub parse : List ℕ → Outcome UdpHeaderData
parse raw =
    if ltb (length raw) 4
    then panic
    else done (record { source_port = read_u16 0 raw; destination_port = read_u16 2 raw })

pub record UdpHeader : Type 0 where
  pub raw : List ℕ
  pub info : UdpHeaderData

unfoldable pub set_source_port : ℕ → UdpHeader → UdpHeader
set_source_port p h = record { raw = write_u16 0 p h.raw; info = record h.info { source_port = p } }

unfoldable pub set_destination_port : ℕ → UdpHeader → UdpHeader
set_destination_port p h = record {
  raw = write_u16 2 p h.raw;
  info = record h.info { destination_port = p };
}

unfoldable pub swap_source_and_destination : UdpHeader → UdpHeader
swap_source_and_destination h = record {
  raw = swap_fields 2 0 2 h.raw;
  info = record { source_port = h.info.destination_port; destination_port = h.info.source_port };
}

-- The `u16` sum wraps in a release build.
unfoldable pub set_payload_length : ℕ → UdpHeader → UdpHeader
set_payload_length n h = record h { raw = write_u16 4 (u16 (udp_header_length + n)) h.raw }

-- The checksum is disabled: the field is zero.
unfoldable pub update_checksum : UdpHeader → UdpHeader
update_checksum h = record h { raw = write_u16 6 0 h.raw }
