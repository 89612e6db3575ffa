-- ===== src/DatagramBuffer/Overrun.antt =====
-- Where the queue breaks: the end of the circular part.
use gnirehtet.Base.{
  ℕ, ◌+◌, ◌≤◌, ◌<◌, ◌^◌, ◌≡◌, refl, arith, true, List, length, ok, done, le→leb, le→leb,
}
use gnirehtet.DatagramBuffer.{DatagramBuffer, is_empty, has_enough_space_for, stored, read_from}
use gnirehtet.DatagramBuffer.Queue.{IsValid, wrapped_above}

-- Let the buffer be valid with its tail at the start. A datagram of fewer than 2 ^ 16 bytes that ends
-- at the circular part's end or behind it is taken, and the buffer is empty then: the datagram and
-- all that waited before it are lost.
pub read_from_overrun :
    (b : DatagramBuffer) (d : List ℕ)
    → IsValid b
    → b.tail ≡ 0
    → length d < 2 ^ 16
    → b.circular_buffer_length ≤ b.head + 2 + length d
    → (b' : DatagramBuffer) × (read_from d b ≡ done (b', ok tt)) × (is_empty b' ≡ true)
unfolding read_from has_enough_space_for is_empty stored
read_from_overrun b d v start few over =
    let fits : b.head + 2 + length d ≤ length b.buf = omega (arith, v.room, v.head_in) in
    let low : b.tail ≤ b.head = omega arith in
    let e = wrapped_above b.circular_buffer_length (b.head + 2 + length d) over in
    (
      stored d b,
      rw
          (
            le→leb (length d) (2 ^ 16) (omega arith),
            le→leb b.tail b.head low,
            le→leb (b.head + 2 + length d) (length b.buf) fits,
          )
          refl,
      rw (e, start) refl,
    )
