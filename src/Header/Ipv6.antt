-- ===== src/Header/Ipv6.antt =====
-- relay-rust/src/relay/ipv6_header.rs.
use gnirehtet.Base.{
  ℕ, ◌+◌, List, Outcome, done, panic, length, ltb, ◌==◌, if◌then◌else◌, byte_at, read_u16,
  write_u16, u16, slice, splice,
}
use gnirehtet.Header.Swap.{swap_fields}
use gnirehtet.Header.Ipv4.{Protocol, tcp, udp, other}

abbrev pub ipv6_header_length : ℕ
ipv6_header_length = 40

-- An address is its sixteen octets.
pub record Ipv6HeaderData : Type 0 where
  pub payload_length : ℕ
  pub next_header : Protocol
  pub hop_limit : ℕ
  pub source : List ℕ
  pub destination : List ℕ

pub next_header_of : ℕ → Protocol
next_header_of n = if n == 6 then tcp else if n == 17 then udp else other

-- `Ipv6HeaderData::parse`. It panics on a slice of fewer than 40 bytes.
unfoldable pub parse : List ℕ → Outcome Ipv6HeaderData
unfolding next_header_of
parse raw =
    if ltb (length raw) 40
    then panic
    else done (record {
      payload_length = read_u16 4 raw;
      next_header = next_header_of (byte_at 6 raw);
      hop_limit = byte_at 7 raw;
      source = slice 8 24 raw;
      destination = slice 24 40 raw;
    })

-- The `u16` sum wraps in a release build.
unfoldable pub total_length : Ipv6HeaderData → ℕ
total_length d = u16 (ipv6_header_length + d.payload_length)

pub record Ipv6Header : Type 0 where
  pub raw : List ℕ
  pub info : Ipv6HeaderData

unfoldable pub set_payload_length : ℕ → Ipv6Header → Ipv6Header
set_payload_length n h = record {
  raw = write_u16 4 n h.raw;
  info = record h.info { payload_length = n };
}

unfoldable pub set_source : List ℕ → Ipv6Header → Ipv6Header
set_source a h = record { raw = splice 8 a h.raw; info = record h.info { source = a } }

unfoldable pub set_destination : List ℕ → Ipv6Header → Ipv6Header
set_destination a h = record { raw = splice 24 a h.raw; info = record h.info { destination = a } }

unfoldable pub swap_source_and_destination : Ipv6Header → Ipv6Header
swap_source_and_destination h = record {
  raw = swap_fields 16 8 16 h.raw;
  info = record h.info { source = h.info.destination; destination = h.info.source };
}
