-- ===== src/IpPacketBuffer/Framing.antt =====
-- The packets at the front of the buffer, and the end of the loop that takes them.
use gnirehtet.Base.{
  byte_at, sym, ◌∙◌, ℕ, ◌+◌, ◌-◌, ◌/◌, ◌≤◌, ◌≡◌, inl, inr, refl, ap, arith, Bool, true, false,
  Bool-cases, List, [], ◌∷◌, ◌++◌, length, drop, some, Option-cases, ◌==◌, ◌||◌, dec_lt, done,
  length-append, read_u16-append, get_or-append, ◌^◌,
}
use gnirehtet.ByteBuffer
use gnirehtet.ByteBuffer.Peek.{peek-consume, length-peek}
use gnirehtet.ByteBuffer.Peek
use gnirehtet.IpPacketBuffer.{
  IpPacketBuffer, available_packet_info, complete, as_ip_packet, next, skip_bytes, skip_malformed,
}
use gnirehtet.IpPacket.{IpPacket}

-- The bytes of the buffer.
abbrev pub bytes_of : IpPacketBuffer → List ℕ
bytes_of b = ByteBuffer.peek b.buf

abbrev pub IsValid : IpPacketBuffer → Type 0
IsValid b = Peek.IsValid b.buf

-- A packet that is available is there whole.
pub available_packet_info-le :
    (raw : List ℕ) (version n : ℕ) → available_packet_info raw ≡ some (version, n) → n ≤ length raw
unfolding available_packet_info complete
available_packet_info-le raw version n e = ground arith

-- What is available stays available, with the same length, when more bytes arrive.
available_packet_info-append :
    (raw more : List ℕ) (version n : ℕ)
    → available_packet_info raw ≡ some (version, n)
    → available_packet_info (raw ++ more) ≡ some (version, n)
unfolding available_packet_info complete
available_packet_info-append raw more version n e = elim (dec_lt (length raw) 4) [
  | yes few ↦ absurd (ground arith)
  | no four ↦
      let first = get_or-append raw more 0 0 (omega arith) in
      let total = read_u16-append 2 raw more (omega arith) in
      elim (dec_lt (length raw) 6) [
        | yes few ↦ ground (arith, first, total, length-append raw more)
        | no six ↦
            ground (
              arith,
              first,
              total,
              read_u16-append 4 raw more (omega arith),
              length-append raw more,
            )
      ]
]

-- If a packet is available in a valid buffer, `next` does not panic and drops as many bytes as its header states.
pub next-drops :
    (b : IpPacketBuffer) (version n : ℕ)
    → IsValid b
    → available_packet_info (bytes_of b) ≡ some (version, n)
    → (b' : IpPacketBuffer) × (next b ≡ done b')
      × (bytes_of b' ≡ drop n (bytes_of b))
      × IsValid b'
      × (b'.buf.head ≡ b.buf.head - n)
unfolding next
next-drops b version n v e =
    let (buf, consumed, rest, valid, at) =
      peek-consume n b.buf v
        (omega (arith, available_packet_info-le _ version n e, length-peek b.buf v)) in
    (record { buf = buf }, rw (next, e, consumed) refl, rest, valid, at)

pub as_ip_packet-info :
    (b : IpPacketBuffer) (packet : IpPacket)
    → as_ip_packet b ≡ done (some packet)
    → (version : ℕ) × (n : ℕ) × (available_packet_info (bytes_of b) ≡ some (version, n))
unfolding as_ip_packet
as_ip_packet-info b packet e = elim (Option-cases (available_packet_info (ByteBuffer.peek b.buf))) [
  | inl none_there ↦ absurd (ground arith)
  | inr ((version, n), there) ↦ (version, n, there)
]

-- The first byte has the version of IPv4 or IPv6.
abbrev pub starts_packet : List ℕ → Bool
starts_packet raw = byte_at 0 raw / 2 ^ 4 == 4 || byte_at 0 raw / 2 ^ 4 == 6

-- What skipping does: one byte less, which starts no packet, or nothing.
abbrev pub Skips : IpPacketBuffer → IpPacketBuffer → Bool → Type 0
Skips b b' true =
    (bytes_of b' ≡ drop 1 (bytes_of b))
    × IsValid b'
    × (b'.buf.head + 1 ≡ b.buf.head)
    × (starts_packet (bytes_of b) ≡ false)
Skips b b' false = b' ≡ b

skip_bytes-Skips :
    (raw : List ℕ) (b : IpPacketBuffer)
    → IsValid b
    → raw ≡ bytes_of b
    → (b' : IpPacketBuffer) × (flag : Bool) × (skip_bytes raw b ≡ done (b', flag)) × Skips b b' flag
unfolding skip_bytes
skip_bytes-Skips [] b v e = (b, false, refl, refl)
skip_bytes-Skips (first ∷ rest) b v e =
    elim (Bool-cases (first / 2 ^ 4 == 4 || first / 2 ^ 4 == 6)) [
      | inl known ↦ (b, false, rw known refl, refl)
      | inr unknown ↦
          let some_there : 1 ≤ b.buf.head = omega (arith, length-peek b.buf v, ap length e) in
          let (buf, consumed, rest', valid, at) = peek-consume 1 b.buf v some_there in
          (
            record { buf = buf },
            true,
            rw (unknown, consumed) refl,
            (rest', valid, omega (arith, at), ap starts_packet (sym e) ∙ unknown),
          )
    ]

pub skip_malformed-Skips :
    (b : IpPacketBuffer)
    → IsValid b
    → (b' : IpPacketBuffer) × (flag : Bool) × (skip_malformed b ≡ done (b', flag)) × Skips b b' flag
unfolding skip_malformed
skip_malformed-Skips b v = skip_bytes-Skips (bytes_of b) b v refl
