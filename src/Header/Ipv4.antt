-- ===== src/Header/Ipv4.antt =====
-- relay-rust/src/relay/ipv4_header.rs.
use gnirehtet.Base.{
  ℕ, zero, suc, ◌+◌, ◌-◌, ◌*◌, ◌/◌, ◌^◌, List, Outcome, done, panic, length, ltb, ◌==◌,
  if◌then◌else◌, byte_at, read_u16, write_u16, read_u32, write_u32, bit_and, u32,
}
use gnirehtet.Checksum.{fold, fold_fuel, not16}
use gnirehtet.Header.Swap.{swap_fields}

pub data Protocol : Type 0 where
  tcp udp icmp other : Protocol

pub record Ipv4HeaderData : Type 0 where
  pub version : ℕ
  pub header_length : ℕ
  pub total_length : ℕ
  pub protocol : Protocol
  pub source : ℕ
  pub destination : ℕ

pub protocol_of : ℕ → Protocol
protocol_of n = if n == 1 then icmp else if n == 6 then tcp else if n == 17 then udp else other

-- `Ipv4HeaderData::parse`. It panics on a slice of fewer than 20 bytes.
unfoldable pub parse : List ℕ → Outcome Ipv4HeaderData
unfolding protocol_of
parse raw =
    if ltb (length raw) 20
    then panic
    else done (record {
      version = byte_at 0 raw / 2 ^ 4;
      header_length = bit_and (byte_at 0 raw) 0xf * 2 ^ 2;
      total_length = read_u16 2 raw;
      protocol = protocol_of (byte_at 9 raw);
      source = read_u32 12 raw;
      destination = read_u32 16 raw;
    })

pub record Ipv4Header : Type 0 where
  pub raw : List ℕ
  pub info : Ipv4HeaderData

unfoldable pub set_total_length : ℕ → Ipv4Header → Ipv4Header
set_total_length n h = record {
  raw = write_u16 2 n h.raw;
  info = record h.info { total_length = n };
}

unfoldable pub set_source : ℕ → Ipv4Header → Ipv4Header
set_source a h = record { raw = write_u32 12 a h.raw; info = record h.info { source = a } }

unfoldable pub set_destination : ℕ → Ipv4Header → Ipv4Header
set_destination a h = record {
  raw = write_u32 16 a h.raw;
  info = record h.info { destination = a };
}

unfoldable pub swap_source_and_destination : Ipv4Header → Ipv4Header
swap_source_and_destination h = record {
  raw = swap_fields 4 12 4 h.raw;
  info = record h.info { source = h.info.destination; destination = h.info.source };
}

set_checksum : ℕ → Ipv4Header → Ipv4Header
set_checksum c h = record h { raw = write_u16 10 c h.raw }

-- The words `i..i + count` of the header, added up.
pub words_from : ℕ → ℕ → List ℕ → ℕ
words_from zero i raw = 0
words_from (suc count) i raw = u32 (read_u16 (2 * i) raw + words_from count (i + 1) raw)

unfoldable pub update_checksum : Ipv4Header → Ipv4Header
unfolding set_checksum words_from fold
update_checksum h =
    let j = h.info.header_length / 2 in
    let sum = u32 (words_from 5 0 h.raw + words_from (j - 6) 6 h.raw) in
    set_checksum (not16 (fold fold_fuel sum)) h
