-- ===== src/ByteBuffer.antt =====
-- relay-rust/src/relay/byte_buffer.rs: bytes that arrive at the end and are consumed from the front,
-- which is always at the buffer's start.
pub mod Peek
use gnirehtet.Base.{
  ℕ, ◌+◌, ◌-◌, Bool, List, length, take, slice, splice, replicate, leb, ltb, if◌then◌else◌,
  IoResult, ok, would_block, failed, Outcome, done, ◌>>=◌, ◌>>◌, check,
}

pub record ByteBuffer : Type 0 where
  pub buf : List ℕ
  pub head : ℕ

unfoldable pub new : ℕ → ByteBuffer
new n = record { buf = replicate n 0; head = 0 }

-- The bytes of a read stand behind those that are there.
unfoldable pub filled : List ℕ → ByteBuffer → ByteBuffer
filled bytes b = record { buf = splice b.head bytes b.buf; head = b.head + length bytes }

-- `read_from`: the source is given the room that is left. The result tells if anything came.
unfoldable pub read_from : (ℕ → IoResult (List ℕ)) → ByteBuffer → ByteBuffer × IoResult Bool
unfolding filled
read_from read b = elim (read (length b.buf - b.head)) [
  | ok bytes ↦ (filled bytes b, ok (ltb 0 (length bytes)))
  | would_block ↦ (b, would_block)
  | failed ↦ (b, failed)
]

unfoldable pub peek : ByteBuffer → List ℕ
peek b = take b.head b.buf

-- `consume`: the assertion, then what is left moves to the front.
unfoldable pub consume : ℕ → ByteBuffer → Outcome ByteBuffer
consume n b = do
  check (leb n b.head)
  let left = b.head - n
  done (record {
    buf = if ltb 0 left then splice 0 (slice n b.head b.buf) b.buf else b.buf;
    head = left;
  })
