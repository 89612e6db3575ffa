-- ===== src/StreamBuffer.antt =====
-- relay-rust/src/relay/stream_buffer.rs: the circular byte buffer between a socket and the device.
pub mod Contents
pub mod Append
pub mod Drain
use gnirehtet.Base.{
  ℕ, ◌+◌, ◌-◌, ◌%◌, Bool, List, length, replicate, take, drop, slice, splice, ltb, leb, ◌==◌,
  if◌then◌else◌, IoResult, ok, would_block, failed,
}

pub record StreamBuffer : Type 0 where
  pub buf : List ℕ
  pub head : ℕ
  pub tail : ℕ

-- `StreamBuffer::new`; one byte more than the capacity tells a full buffer from an empty one.
unfoldable pub new : ℕ → StreamBuffer
new capacity = record { buf = replicate (capacity + 1) 0; head = 0; tail = 0 }

unfoldable pub is_empty : StreamBuffer → Bool
is_empty b = b.head == b.tail

unfoldable pub size : StreamBuffer → ℕ
size b = if ltb b.head b.tail then b.head + length b.buf - b.tail else b.head - b.tail

unfoldable pub capacity : StreamBuffer → ℕ
capacity b = length b.buf - 1

unfoldable pub remaining : StreamBuffer → ℕ
unfolding capacity size
remaining b = capacity b - size b

optimize : StreamBuffer → StreamBuffer
unfolding is_empty
optimize b = if is_empty b then record b { head = 0; tail = 0 } else b

-- The slice that `write_to` hands to the destination.
pub source_slice : StreamBuffer → List ℕ
source_slice b = if ltb b.tail b.head then slice b.tail b.head b.buf else drop b.tail b.buf

-- The tail after a write of `w` bytes.
advance : StreamBuffer → ℕ → StreamBuffer
advance b w =
    if ltb b.tail b.head
    then record b { tail = b.tail + w }
    else record b { tail = (b.tail + w) % length b.buf }

-- What `write_to` makes of the destination's answer: an error leaves the buffer as it was.
written : StreamBuffer → IoResult ℕ → StreamBuffer × IoResult ℕ
unfolding optimize advance
written b (ok w) = (optimize (advance b w), ok w)
written b would_block = (b, would_block)
written b failed = (b, failed)

-- `write` is the destination's `write`, called once on the slice.
pub write_to : (List ℕ → IoResult ℕ) → StreamBuffer → StreamBuffer × IoResult ℕ
unfolding is_empty source_slice written
write_to write b = if is_empty b then (b, ok 0) else written b (write (source_slice b))

-- The caller has checked `remaining()`; the code asserts it in debug builds only.
pub read_from : StreamBuffer → List ℕ → StreamBuffer
read_from b source =
    let source_len = length source in
    let buf_len = length b.buf in
    let right = buf_len - b.head in
    if leb source_len right
    then record b { buf = splice b.head source b.buf; head = (b.head + source_len) % buf_len }
    else record b {
      buf = splice 0 (drop right source) (splice b.head (take right source) b.buf);
      head = (b.head + source_len) % buf_len;
    }
