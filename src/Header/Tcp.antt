-- ===== src/Header/Tcp.antt =====
-- relay-rust/src/relay/tcp_header.rs.
use gnirehtet.Base.{
  ℕ, ◌+◌, ◌-◌, ◌*◌, ◌/◌, ◌%◌, ◌^◌, Bool, not, List, Outcome, done, panic, length, take, ltb, ◌==◌,
  if◌then◌else◌, read_u16, write_u16, read_u32, write_u32, bit_and, bit_or, u8, u16,
}
use gnirehtet.Checksum.{sum_words, sum_pairs, close_sum}
use gnirehtet.Header.Swap.{swap_fields}
use gnirehtet.Header.Ipv4.{Ipv4HeaderData}
use gnirehtet.Header.Ipv6.{Ipv6HeaderData}
use gnirehtet.Header.Ip.{IpHeaderData, v4, v6}

pub record TcpHeaderData : Type 0 where
  pub source_port : ℕ
  pub destination_port : ℕ
  pub sequence_number : ℕ
  pub acknowledgement_number : ℕ
  pub header_length : ℕ
  pub flags : ℕ
  pub window : ℕ

abbrev pub flag_fin : ℕ
flag_fin = 1

abbrev pub flag_syn : ℕ
flag_syn = 2

abbrev pub flag_rst : ℕ
flag_rst = 4

abbrev pub flag_psh : ℕ
flag_psh = 8

abbrev pub flag_ack : ℕ
flag_ack = 16

-- `TcpHeaderData::parse`. It panics on a slice of fewer than 16 bytes.
unfoldable pub parse : List ℕ → Outcome TcpHeaderData
parse raw =
    let data_offset_and_flags = read_u16 12 raw in
    if ltb (length raw) 16
    then panic
    else done (record {
      source_port = read_u16 0 raw;
      destination_port = read_u16 2 raw;
      sequence_number = read_u32 4 raw;
      acknowledgement_number = read_u32 8 raw;
      header_length = u8 (bit_and data_offset_and_flags 0xF000 / 2 ^ 10);
      flags = bit_and data_offset_and_flags 0x1FF;
      window = read_u16 14 raw;
    })

abbrev has_flag : ℕ → TcpHeaderData → Bool
has_flag flag d = not (bit_and d.flags flag == 0)

unfoldable pub is_fin : TcpHeaderData → Bool
is_fin = has_flag flag_fin

unfoldable pub is_syn : TcpHeaderData → Bool
is_syn = has_flag flag_syn

unfoldable pub is_rst : TcpHeaderData → Bool
is_rst = has_flag flag_rst

unfoldable pub is_psh : TcpHeaderData → Bool
is_psh = has_flag flag_psh

unfoldable pub is_ack : TcpHeaderData → Bool
is_ack = has_flag flag_ack

pub record TcpHeader : Type 0 where
  pub raw : List ℕ
  pub info : TcpHeaderData

unfoldable pub set_source_port : ℕ → TcpHeader → TcpHeader
set_source_port p h = record { raw = write_u16 0 p h.raw; info = record h.info { source_port = p } }

unfoldable pub set_destination_port : ℕ → TcpHeader → TcpHeader
set_destination_port p h = record {
  raw = write_u16 2 p h.raw;
  info = record h.info { destination_port = p };
}

unfoldable pub swap_source_and_destination : TcpHeader → TcpHeader
swap_source_and_destination h = record {
  raw = swap_fields 2 0 2 h.raw;
  info = record h.info {
    source_port = h.info.destination_port;
    destination_port = h.info.source_port;
  };
}

unfoldable pub set_sequence_number : ℕ → TcpHeader → TcpHeader
set_sequence_number n h = record {
  raw = write_u32 4 n h.raw;
  info = record h.info { sequence_number = n };
}

unfoldable pub set_acknowledgement_number : ℕ → TcpHeader → TcpHeader
set_acknowledgement_number n h = record {
  raw = write_u32 8 n h.raw;
  info = record h.info { acknowledgement_number = n };
}

unfoldable pub set_flags : ℕ → TcpHeader → TcpHeader
set_flags f h = record {
  raw = write_u16 12 (bit_or (bit_and (read_u16 12 h.raw) 0xFE00) (bit_and f 0x1FF)) h.raw;
  info = record h.info { flags = f };
}

unfoldable pub set_window : ℕ → TcpHeader → TcpHeader
set_window w h = record { raw = write_u16 14 w h.raw; info = record h.info { window = w } }

unfoldable pub set_data_offset : ℕ → TcpHeader → TcpHeader
set_data_offset o h = record {
  raw = write_u16 12 (bit_or (bit_and (read_u16 12 h.raw) 0x0FFF) (u16 (o * 2 ^ 12))) h.raw;
  info = record h.info { header_length = u8 (o * 2 ^ 2) };
}

unfoldable pub shrink_options : TcpHeader → TcpHeader
unfolding set_data_offset
shrink_options = set_data_offset 5

unfoldable pub set_checksum : ℕ → TcpHeader → TcpHeader
set_checksum c h = record h { raw = write_u16 16 c h.raw }

-- `u16` subtraction, which wraps in a release build.
abbrev pub sub16 : ℕ → ℕ → ℕ
sub16 a b = (a + 2 ^ 16 - b) % 2 ^ 16

-- Both routines from the pseudo-header's sum on: the checksum field is reset, the bytes of the
-- header and of the payload are added up, and the complement is stored.
unfoldable pub finish_checksum : ℕ → ℕ → List ℕ → TcpHeader → TcpHeader
finish_checksum pseudo payload_length payload h =
    let cleared = set_checksum 0 h in
    let header_sums = sum_pairs (0, pseudo) (take h.info.header_length cleared.raw) in
    set_checksum (close_sum (sum_pairs header_sums (take payload_length payload))) cleared

-- The pseudo-header of RFC 793.
pseudo_v4 : Ipv4HeaderData → ℕ → ℕ
pseudo_v4 ip transport_length =
    6
    + ip.source / 2 ^ 16
    + ip.source % 2 ^ 16
    + ip.destination / 2 ^ 16
    + ip.destination % 2 ^ 16
    + transport_length

unfoldable pub update_checksum_v4 : Ipv4HeaderData → List ℕ → TcpHeader → TcpHeader
unfolding finish_checksum pseudo_v4
update_checksum_v4 ip payload h =
    let transport_length = sub16 ip.total_length ip.header_length in
    finish_checksum (pseudo_v4 ip transport_length) (sub16 transport_length h.info.header_length)
      payload h

-- The pseudo-header of RFC 2460.
pseudo_v6 : Ipv6HeaderData → ℕ
unfolding sum_words
pseudo_v6 ip =
    sum_words (sum_words 0 (take 16 ip.source)) (take 16 ip.destination) + ip.payload_length + 6

unfoldable pub update_checksum_v6 : Ipv6HeaderData → List ℕ → TcpHeader → TcpHeader
unfolding finish_checksum pseudo_v6
update_checksum_v6 ip payload h =
    finish_checksum (pseudo_v6 ip) (sub16 ip.payload_length h.info.header_length) payload h

unfoldable pub update_checksum : IpHeaderData → List ℕ → TcpHeader → TcpHeader
unfolding update_checksum_v4 update_checksum_v6
update_checksum (v4 ip) payload h = update_checksum_v4 ip payload h
update_checksum (v6 ip) payload h = update_checksum_v6 ip payload h
