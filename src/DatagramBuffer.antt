-- ===== src/DatagramBuffer.antt =====
-- relay-rust/src/relay/datagram_buffer.rs: a circular buffer of datagrams, each behind its length.
pub mod Layout
pub mod Queue
pub mod Store
pub mod Take
pub mod Overrun
pub mod Trip
use gnirehtet.Base.{
  ℕ, ◌+◌, ◌-◌, ◌^◌, Bool, not, true, List, length, slice, splice, replicate, leb, ◌==◌,
  if◌then◌else◌, read_u16, write_u16, u16, IoResult, ok, would_block, failed, Outcome, done, ◌>>=◌,
  ◌>>◌, check,
}

abbrev pub max_datagram_length : ℕ
max_datagram_length = 2 ^ 16

abbrev pub header_length : ℕ
header_length = 2

abbrev pub max_block_length : ℕ
max_block_length = header_length + max_datagram_length

pub record DatagramBuffer : Type 0 where
  pub buf : List ℕ
  pub head : ℕ
  pub tail : ℕ
  pub circular_buffer_length : ℕ

unfoldable pub new : ℕ → DatagramBuffer
new capacity = record {
  buf = replicate (capacity + max_block_length) 0;
  head = 0;
  tail = 0;
  circular_buffer_length = capacity + 1;
}

unfoldable pub is_empty : DatagramBuffer → Bool
is_empty b = b.head == b.tail

-- Right of the tail there is always the space for one more datagram.
unfoldable pub has_enough_space_for : ℕ → DatagramBuffer → Bool
has_enough_space_for datagram_length b =
    if leb b.tail b.head then true else leb (header_length + datagram_length) (b.tail - b.head - 1)

-- An index that has reached the circular part's end starts again.
unfoldable pub wrapped : ℕ → ℕ → ℕ
wrapped limit i = if leb limit i then 0 else i

-- What the destination's answer to `length` bytes means for the call.
unfoldable pub sent : ℕ → IoResult ℕ → IoResult (Unit {0})
sent n (ok w) = if w == n then ok tt else failed
sent n would_block = would_block
sent n failed = failed

-- `write_to`, with `read_length`. The datagram is gone whatever the destination answers.
unfoldable pub write_to :
    (List ℕ → IoResult ℕ) → DatagramBuffer → Outcome (DatagramBuffer × IoResult (Unit {0}))
write_to send b = do
  check (not (is_empty b))
  check (leb (b.tail + 2) (length b.buf))
  let n = read_u16 b.tail b.buf
  let first = b.tail + 2
  check (leb (first + n) (length b.buf))
  done (
    record b { tail = wrapped b.circular_buffer_length (first + n) },
    sent n (send (slice first (first + n) b.buf)),
  )

-- The two bytes of the length and the datagram behind them.
unfoldable pub stored : List ℕ → DatagramBuffer → DatagramBuffer
stored source b =
    let n = length source in
    record b {
      buf = splice (b.head + 2) source (write_u16 b.head (u16 n) b.buf);
      head = wrapped b.circular_buffer_length (b.head + 2 + n);
    }

-- `read_from`, with `write_length`. A datagram that finds no room is refused.
unfoldable pub read_from : List ℕ → DatagramBuffer → Outcome (DatagramBuffer × IoResult (Unit {0}))
read_from source b = do
  check (leb (length source) max_datagram_length)
  if has_enough_space_for (length source) b
      then (do
        check (leb (b.head + 2 + length source) (length b.buf))
        done (stored source b, ok tt))
      else done (b, failed)
