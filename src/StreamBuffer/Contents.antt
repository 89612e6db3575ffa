-- ===== src/StreamBuffer/Contents.antt =====
-- The abstract view of a stream buffer: the bytes that it holds, oldest first.
use gnirehtet.Base.{
  ℕ, ◌+◌, ◌-◌, ◌≤◌, ◌<◌, ◌≡◌, arith, refl, ap, ◌∙◌, List, [], length, take, drop, slice, ◌++◌, ltb,
  if◌then◌else◌, length-append, length-take, length-drop, length-replicate,
}
use gnirehtet.StreamBuffer.{StreamBuffer, new, size}

pub contents : StreamBuffer → List ℕ
contents b =
    if ltb b.head b.tail then drop b.tail b.buf ++ take b.head b.buf else slice b.tail b.head b.buf

-- Both indices lie in the buffer.
pub record IsValid (b : StreamBuffer) : Type 0 where
  pub head_in : b.head < length b.buf
  pub tail_in : b.tail < length b.buf

pub new-IsValid : (n : ℕ) → IsValid (new n)
unfolding new
new-IsValid n = omega (arith, length-replicate {A = ℕ} (n + 1) 0)

pub contents-new : (n : ℕ) → contents (new n) ≡ []
unfolding contents new
contents-new n = refl

pub length-contents : (b : StreamBuffer) → IsValid b → length (contents b) ≡ size b
unfolding contents size
length-contents b v = ground (
  arith,
  length-append (drop b.tail b.buf) (take b.head b.buf),
  length-drop b.tail b.buf,
  length-take b.head b.buf,
  length-take (b.head - b.tail) (drop b.tail b.buf),
)

-- The two shapes of the window.
pub contents-flat : (b : StreamBuffer) → b.tail ≤ b.head → contents b ≡ slice b.tail b.head b.buf
unfolding contents
contents-flat b low = ground arith

pub contents-wrapped :
    (b : StreamBuffer) → b.head < b.tail → contents b ≡ drop b.tail b.buf ++ take b.head b.buf
unfolding contents
contents-wrapped b low = ground arith

pub contents-empty : (b : StreamBuffer) → b.head ≡ b.tail → contents b ≡ []
contents-empty b e = contents-flat b (omega arith) ∙ ap (λ k. take k (drop b.tail b.buf)) none_left
  where
    none_left : b.head - b.tail ≡ 0
    none_left = omega arith
