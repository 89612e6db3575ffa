-- ===== src/IpPacketBuffer.antt =====
-- relay-rust/src/relay/ip_packet_buffer.rs: the packets in the bytes that a device sends, and the loop
-- of relay-rust/src/relay/client.rs that takes them out.
pub mod Framing
pub mod Loop
pub mod Keeps
use gnirehtet.Base.{
  ℕ, zero, suc, ◌+◌, ◌/◌, ◌^◌, Bool, true, false, List, [], ◌∷◌, Option, none, some, length, min,
  take, leb, ltb, ◌==◌, ◌||◌, if◌then◌else◌, read_u16, byte_at, u16, IoResult, ok, would_block,
  failed, Outcome, done, panic, ◌>>=◌, ◌>>◌,
}
use gnirehtet.ByteBuffer
use gnirehtet.ByteBuffer.{ByteBuffer}
use gnirehtet.IpPacket
use gnirehtet.IpPacket.{IpPacket}

pub record IpPacketBuffer : Type 0 where
  pub buf : ByteBuffer

unfoldable pub new : IpPacketBuffer
unfolding ByteBuffer.new
new = record { buf = ByteBuffer.new (2 ^ 16) }

unfoldable pub read_from : (ℕ → IoResult (List ℕ)) → IpPacketBuffer → IpPacketBuffer × IoResult Bool
read_from read b = let (buf, r) = ByteBuffer.read_from read b.buf in (record { buf = buf }, r)

-- A packet is available if as many bytes are there as its header states.
pub complete : ℕ → ℕ → List ℕ → Option (ℕ × ℕ)
complete version total raw = if leb total (length raw) then some (version, total) else none

-- `available_packet_info`, of the bytes that `peek` shows. The `u16` sum wraps in a release build.
unfoldable pub available_packet_info : List ℕ → Option (ℕ × ℕ)
unfolding complete
available_packet_info raw =
    let version = byte_at 0 raw / 2 ^ 4 in
    if ltb (length raw) 4
    then none
    else if version == 4
    then complete 4 (read_u16 2 raw) raw
    else if version == 6
    then (if ltb (length raw) 6 then none else complete 6 (u16 (read_u16 4 raw + 40)) raw)
    else none

unfoldable pub as_ip_packet : IpPacketBuffer → Outcome (Option IpPacket)
as_ip_packet b = elim (available_packet_info (ByteBuffer.peek b.buf)) [
  | none ↦ done none
  | some info ↦ IpPacket.parse (ByteBuffer.peek b.buf)
]

-- `next` does nothing without a packet.
unfoldable pub next : IpPacketBuffer → Outcome IpPacketBuffer
next b = elim (available_packet_info (ByteBuffer.peek b.buf)) [
  | none ↦ done b
  | some (version, n) ↦ do buf ← ByteBuffer.consume n b.buf; done (record { buf = buf })
]

-- The result tells if a byte was skipped.
unfoldable pub skip_bytes : List ℕ → IpPacketBuffer → Outcome (IpPacketBuffer × Bool)
skip_bytes [] b = done (b, false)
skip_bytes (first ∷ rest) b =
    if first / 2 ^ 4 == 4 || first / 2 ^ 4 == 6
    then done (b, false)
    else (do buf ← ByteBuffer.consume 1 b.buf; done (record { buf = buf }, true))

unfoldable pub skip_malformed : IpPacketBuffer → Outcome (IpPacketBuffer × Bool)
unfolding skip_bytes
skip_malformed b = skip_bytes (ByteBuffer.peek b.buf) b

-- What a run of the loop gives: the buffer, the router and the number of packets, or `none` if it has
-- not ended after the rounds that it was given.
abbrev pub Fed : Type 0 → Type 0
Fed S = Outcome (Option (IpPacketBuffer × S × ℕ))

-- The loop of `Client::feed_device_data`, for any router: `route` is its `send_to_network` on its
-- state. `onward` is the rest of the loop.
module _ {S : Type 0} (route : S → IpPacket → Outcome S) where
  unfoldable pub feed_round :
      (IpPacketBuffer → S → ℕ → Fed S) → IpPacketBuffer → S → ℕ → Option IpPacket → Fed S
  feed_round onward b s count (some packet) = do
    s' ← route s packet
    b' ← next b
    onward b' s' (count + 1)
  feed_round onward b s count none = skip_malformed b >>= λ r. elim r.1 [
    | true ↦ onward r.0 s count
    | false ↦ done (some (r.0, s, count))
  ]

  unfoldable pub feed_loop : ℕ → IpPacketBuffer → S → ℕ → Fed S
  unfolding feed_round
  feed_loop zero b s count = done none
  feed_loop (suc fuel) b s count = as_ip_packet b >>= feed_round (feed_loop fuel) b s count

  -- `Client::feed_device_data`: one read of the bytes, then the loop.
  unfoldable pub feed_device_data : ℕ → List ℕ → IpPacketBuffer → S → Fed S
  unfolding feed_loop read_from
  feed_device_data fuel bytes b s =
      let (b', r) = read_from (λ room. ok (take room bytes)) b in
      elim r [
        | ok true ↦ feed_loop fuel b' s 0
        | ok false ↦ done (some (b', s, 0))
        | would_block ↦ done (some (b', s, 0))
        | failed ↦ done (some (b', s, 0))
      ]
