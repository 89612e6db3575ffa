-- ===== src/ByteBuffer/Peek.antt =====
-- The abstract view of a byte buffer: the bytes that `peek` shows.
use gnirehtet.Base.{
  ℕ, ◌+◌, ◌-◌, ◌≤◌, ◌≡◌, refl, sym, ap, ◌∙◌, arith, List, ◌++◌, length, take, drop, slice, splice,
  length-take, length-drop, length-splice, take-append-drop, take_left, append_assoc, length-append,
  if◌then◌else◌, drop-take, ltb, le→leb, lt→ltb, le→ltb, dec_lt, Bool-cases, inl, inr, done,
}
use gnirehtet.ByteBuffer.{ByteBuffer, new, filled, peek, consume}

-- The head lies in the buffer.
pub record IsValid (b : ByteBuffer) : Type 0 where
  pub head_in : b.head ≤ length b.buf

pub new-IsValid : (n : ℕ) → IsValid (new n)
unfolding new
new-IsValid n = record { head_in = omega arith }

pub length-peek : (b : ByteBuffer) → IsValid b → length (peek b) ≡ b.head
unfolding peek
length-peek b v = omega (arith, length-take b.head b.buf, v.head_in)

-- In a valid buffer with room for the bytes of a read, they stand behind those that `peek` showed, and
-- the buffer stays valid.
pub peek-filled :
    (bytes : List ℕ) (b : ByteBuffer)
    → IsValid b
    → b.head + length bytes ≤ length b.buf
    → (peek (filled bytes b) ≡ peek b ++ bytes) × IsValid (filled bytes b)
unfolding peek filled
peek-filled bytes b v room = (
  rw (← append_assoc) (
      take_left _ (take b.head b.buf ++ bytes) (drop (b.head + length bytes) b.buf)
        (omega (arith, length-append (take b.head b.buf) bytes, length-take b.head b.buf))),
  record { head_in = omega (arith, length-splice b.head bytes b.buf room) },
)

module _ (n : ℕ) (b : ByteBuffer) (v : IsValid b) (few : n ≤ b.head) where
  abbrev left : ℕ
  left = b.head - n

  abbrev moved : List ℕ
  moved = if ltb 0 left then splice 0 (slice n b.head b.buf) b.buf else b.buf

  length-rest : length (slice n b.head b.buf) ≡ left
  length-rest = omega (arith, length-take left (drop n b.buf), length-drop n b.buf, v.head_in)

  -- The bytes that are left, at the front.
  take-moved : take left moved ≡ drop n (take b.head b.buf)
  take-moved = elim (dec_lt 0 left) [
    | yes some_left ↦
        rw (lt→ltb 0 left some_left) (
          take_left left (slice n b.head b.buf) (drop (0 + length (slice n b.head b.buf)) b.buf)
            (sym length-rest))
        ∙ sym (drop-take n b.head b.buf)
    | no none_left ↦
        let zero_left : left ≡ 0 = omega arith in
        ap (λ k. take k moved) zero_left
        ∙ sym (ap (λ k. take k (drop n b.buf)) zero_left)
        ∙ sym (drop-take n b.head b.buf)
  ]

  length-moved : length moved ≡ length b.buf
  length-moved = elim (dec_lt 0 left) [
    | yes some_left ↦
        rw (lt→ltb 0 left some_left)
          (length-splice 0 (slice n b.head b.buf) b.buf (omega (arith, length-rest, v.head_in)))
    | no none_left ↦ rw (le→ltb 0 left (omega arith)) refl
  ]

  -- If a valid buffer shows that many bytes, `consume` does not panic, drops them from the front and
  -- leaves a valid buffer.
  pub peek-consume :
      (b' : ByteBuffer) × (consume n b ≡ done b')
      × (peek b' ≡ drop n (peek b))
      × IsValid b'
      × (b'.head ≡ b.head - n)
  unfolding peek consume
  peek-consume = (
    record { buf = moved; head = left },
    rw (le→leb n b.head few) refl,
    take-moved,
    record { head_in = omega (arith, length-moved, v.head_in) },
    refl,
  )

splice_same : (k : ℕ) (xs : List ℕ) → k ≤ length xs → splice 0 (take k xs) xs ≡ xs
splice_same k xs few =
    ap (λ m. take k xs ++ drop m xs) (omega (arith, length-take k xs)) ∙ take-append-drop k xs

-- Nothing is consumed, and the copy moves the bytes onto themselves.
pub consume_none : (b : ByteBuffer) → IsValid b → consume 0 b ≡ done b
unfolding consume
consume_none b v =
    rw (le→leb 0 b.head (omega arith))
      (rebuilt _ _ (copied (b.head - 0) (omega (arith, v.head_in))) (omega arith))
  where
    copied :
        (k : ℕ)
        → k ≤ length b.buf
        → (if ltb 0 k then splice 0 (take k b.buf) b.buf else b.buf) ≡ b.buf
    copied k few = elim (Bool-cases (ltb 0 k)) [
      | inl e ↦ rw e (splice_same k b.buf few)
      | inr e ↦ rw e refl
    ]

    rebuilt :
        (xs : List ℕ) (h : ℕ)
        → xs ≡ b.buf
        → h ≡ b.head
        → done (record { buf = xs; head = h }) ≡ done b
    rebuilt xs h e e' = rw (e, e') refl
