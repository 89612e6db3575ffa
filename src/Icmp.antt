-- ===== src/Icmp.antt =====
-- relay-rust/src/relay/icmp_handler.rs: the ICMP packets that the relay makes up. `checksum` of that
-- file is Checksum.checksum.
pub mod Reply
use gnirehtet.Base.{
  ℕ, ◌+◌, ◌-◌, ◌*◌, ◌/◌, ◌^◌, min, Bool, not, ◌||◌, List, [], ◌++◌, Option, none, some, length,
  take, drop, slice, set, replicate, splice, ltb, ◌==◌, if◌then◌else◌, byte_at, read_u16, write_u16,
  write_u32, u16, bit_and,
}
use gnirehtet.Checksum.{checksum}
use gnirehtet.Header.Swap.{swap_fields}
use gnirehtet.Header.Ip.{IpHeaderData, v4, v6}
use gnirehtet.Header.Ipv4.{Ipv4HeaderData}
use gnirehtet.IpPacket.{IpPacket}

abbrev pub ipv4_header_min_length : ℕ
ipv4_header_min_length = 20

abbrev pub icmp_header_length : ℕ
icmp_header_length = 8

abbrev pub protocol_icmp : ℕ
protocol_icmp = 1

-- A checksum of zero bytes at `i`, then the checksum of what `part` takes there.
unfoldable pub sealed : ℕ → (List ℕ → List ℕ) → List ℕ → List ℕ
sealed i part raw =
    let zeroed = set (set raw i 0) (i + 1) 0 in write_u16 i (checksum (part zeroed)) zeroed

-- The reply to the bytes of a request, with an IP header of `ihl` bytes.
unfoldable pub reply_of : ℕ → List ℕ → List ℕ
unfolding sealed
reply_of ihl raw =
    let typed = set (swap_fields 4 12 4 raw) ihl 0 in
    sealed 10 (take ihl) (sealed (ihl + 2) (drop ihl) typed)

unfoldable pub build_echo_reply : List ℕ → Option (List ℕ)
build_echo_reply request =
    let ihl = bit_and (byte_at 0 request) 0xf * 4 in
    let total_length = read_u16 2 request in
    if ltb (length request) (ipv4_header_min_length + icmp_header_length)
    then none
    else if not (byte_at 0 request / 2 ^ 4 == 4)
    then none
    else if ltb ihl ipv4_header_min_length || ltb (length request) (ihl + icmp_header_length)
    then none
    else if not (byte_at 9 request == protocol_icmp) || not (byte_at ihl request == 8)
    then none
    else if ltb (length request) total_length || ltb total_length (ihl + icmp_header_length)
    then none
    else some (reply_of ihl (take total_length request))

-- The packet that reports the first `orig_header_length` bytes of the original and eight more, as
-- far as there are so many.
unfoldable pub unreachable_v4 : Ipv4HeaderData → List ℕ → List ℕ
unreachable_v4 d original =
    let copy_length = min (length original - d.header_length) 8 in
    let total_length =
      ipv4_header_min_length + icmp_header_length + d.header_length + copy_length in
    let version = set (set (set (replicate total_length 0) 0 0x45) 8 64) 9 protocol_icmp in
    let addressed =
      write_u32 16 d.source (write_u32 12 d.destination (write_u16 2 (u16 total_length) version)) in
    let ip = write_u16 10 (checksum (take ipv4_header_min_length addressed)) addressed in
    let typed = set (set ip 20 3) 21 3 in
    let copied =
      splice (28 + d.header_length) (slice d.header_length (d.header_length + copy_length) original)
        (splice 28 (take d.header_length original) typed) in
    write_u16 22 (checksum (drop ipv4_header_min_length copied)) copied

unfoldable pub unreachable : IpHeaderData → List ℕ → Option (List ℕ)
unreachable (v6 d) original = none
unreachable (v4 d) original =
    if ltb (length original) d.header_length then none else some (unreachable_v4 d original)

unfoldable pub build_port_unreachable : IpPacket → Option (List ℕ)
build_port_unreachable original = unreachable original.ip_header_data original.raw
