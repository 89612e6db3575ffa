-- ===== src/StreamBuffer/Drain.antt =====
-- `write_to` removes from the front what the destination accepted.
use gnirehtet.Base.{
  true, false, ne→==, ℕ, ◌+◌, ◌-◌, ◌%◌, ◌≤◌, ◌<◌, ◌≡◌, arith, refl, sym, ap, ◌∙◌, List, length,
  take, drop, ◌==◌, IoResult, ok, would_block, failed, length-take, length-drop, drop-append_le,
  drop-drop, drop-take, drop_left, take_left, take_all, wrap_below, wrap_above, dec_lt, Bool-cases,
  inl, inr, le→ltb, lt→ltb, eq→==, ◌⊎◌, ==_iff, ◌≢◌,
}
use gnirehtet.StreamBuffer.{
  StreamBuffer, source_slice, write_to, is_empty, written, optimize, advance,
}
use gnirehtet.StreamBuffer.Contents.{
  contents, IsValid, contents-flat, contents-wrapped, contents-empty,
}

-- What a result says was written.
abbrev pub accepted : IoResult ℕ → ℕ
accepted (ok w) = w
accepted would_block = 0
accepted failed = 0

contents-optimize : (b : StreamBuffer) → contents (optimize b) ≡ contents b
unfolding optimize is_empty
contents-optimize b = elim (Bool-cases (b.head == b.tail)) [
  | inl e ↦
      rw (e, contents-empty (record b { head = 0; tail = 0 }) refl)
        (sym (contents-empty b ((==_iff _ _).0 e)))
  | inr e ↦ rw e
]

optimize-IsValid : (b : StreamBuffer) → IsValid b → IsValid (optimize b)
unfolding optimize is_empty
optimize-IsValid b v = ground arith

length-optimize : (b : StreamBuffer) → length (optimize b).buf ≡ length b.buf
unfolding optimize is_empty
length-optimize b = ground arith

module _ (b : StreamBuffer) (v : IsValid b) where
  open b use {buf, head, tail}

  abbrev at_tail : ℕ → StreamBuffer
  at_tail t = record { buf = buf; head = head; tail = t }

  -- The window lies in one piece.
  module _ (w : ℕ) (flat : tail < head) (few : w ≤ head - tail) where
    advance_flat : advance b w ≡ at_tail (tail + w)
    unfolding advance
    advance_flat = rw (lt→ltb tail head flat)

    contents-advance_flat : contents (advance b w) ≡ drop w (contents b)
    contents-advance_flat =
        rw
          (
            advance_flat,
            contents-flat (at_tail (tail + w)) (omega arith),
            contents-flat b (omega arith),
          )
          (sym (
            drop-take w (head - tail) (drop tail buf)
            ∙ rw drop-drop (ap (λ k. take k (drop (tail + w) buf)) same)))
      where
        same : head - tail - w ≡ head - (tail + w)
        same = omega arith

  -- The window goes on at the left end.
  module _ (w : ℕ) (wrapped : head < tail) (few : w ≤ length buf - tail) where
    advance_wrapped : advance b w ≡ at_tail ((tail + w) % length buf)
    unfolding advance
    advance_wrapped = rw (le→ltb tail head (omega arith))

    contents-advance_wrapped : contents (advance b w) ≡ drop w (contents b)
    contents-advance_wrapped = elim (dec_lt (tail + w) (length buf)) [
      | yes inside ↦ rw (
        advance_wrapped,
        wrap_below (tail + w) (length buf) inside,
        contents-wrapped (at_tail (tail + w)) (omega arith),
        contents-wrapped b wrapped,
        drop-append_le w (drop tail buf) (take head buf) (omega (arith, length-drop tail buf)),
        drop-drop,
      )
      | no end ↦
          let back : (tail + w) % length buf ≡ 0 =
            wrap_above (tail + w) (length buf) (omega arith) (omega (arith, v.tail_in))
            ∙ omega arith in
          rw
            (
              advance_wrapped,
              back,
              contents-flat (at_tail 0) (omega arith),
              contents-wrapped b wrapped,
              drop_left w (drop tail buf) (take head buf)
                  (omega (arith, length-drop tail buf, v.tail_in)),
            )
            (ap (λ k. take k buf) all)
    ]
      where
        all : head - 0 ≡ head
        all = omega arith

  length-source_slice_flat : tail < head → length (source_slice b) ≡ head - tail
  unfolding source_slice
  length-source_slice_flat h =
      ground (arith, length-take (head - tail) (drop tail buf), length-drop tail buf)

  length-source_slice_wrapped : head < tail → length (source_slice b) ≡ length buf - tail
  unfolding source_slice
  length-source_slice_wrapped h = ground (arith, length-drop tail buf)

  pub source_slice-flat : tail < head → source_slice b ≡ contents b
  unfolding source_slice
  source_slice-flat h = rw (lt→ltb tail head h, contents-flat b (omega arith))

  source_slice-wrapped : head < tail → source_slice b ≡ take (length (source_slice b)) (contents b)
  source_slice-wrapped h =
      rw
        (
          length-source_slice_wrapped h,
          contents-wrapped b h,
          take_left (length buf - tail) (drop tail buf) (take head buf)
              (omega (arith, length-drop tail buf)),
        )
        (unfold source_slice in rw (le→ltb tail head (omega arith)))

  -- The slice is the front of the contents, and is not empty unless the buffer is.
  pub source_slice-take :
      head ≢ tail
      → (0 < length (source_slice b))
        × (source_slice b ≡ take (length (source_slice b)) (contents b))
  source_slice-take ne = elim (dec_lt tail head) [
    | yes h ↦ (
      omega (arith, length-source_slice_flat h),
      rw (source_slice-flat h) (sym (take_all (length (contents b)) (contents b) (omega arith))),
    )
    | no h ↦ (
      omega (arith, length-source_slice_wrapped (omega arith), v.tail_in),
      source_slice-wrapped (omega arith),
    )
  ]

  contents-advance :
      (w : ℕ)
      → head ≢ tail
      → w ≤ length (source_slice b)
      → contents (advance b w) ≡ drop w (contents b)
  contents-advance w ne few = elim (dec_lt tail head) [
    | yes h ↦ contents-advance_flat w h (omega (arith, length-source_slice_flat h))
    | no h ↦
        contents-advance_wrapped w (omega arith)
          (omega (arith, length-source_slice_wrapped (omega arith)))
  ]

  advance-IsValid : (w : ℕ) → head ≢ tail → w ≤ length (source_slice b) → IsValid (advance b w)
  unfolding advance
  advance-IsValid w ne few =
      ground (arith, length-source_slice_flat, length-source_slice_wrapped, v.head_in, v.tail_in)

-- What a call leaves: the bytes that were accepted are gone from the front, and no other.
pub record Drained (b after : StreamBuffer) (r : IoResult ℕ) : Type 0 where
  pub valid : IsValid after
  pub rest : contents after ≡ drop (accepted r) (contents b)
  pub same_size : length after.buf ≡ length b.buf

written-result : (b : StreamBuffer) (r : IoResult ℕ) → (written b r).1 ≡ r
unfolding written
written-result b (ok w) = refl
written-result b would_block = refl
written-result b failed = refl

written-Drained :
    (b : StreamBuffer) (r : IoResult ℕ)
    → IsValid b
    → b.head ≢ b.tail
    → accepted r ≤ length (source_slice b)
    → Drained b (written b r).0 r
unfolding written
written-Drained b (ok w) v ne few = record {
  valid = optimize-IsValid (advance b w) (advance-IsValid b v w ne few);
  rest = contents-optimize (advance b w) ∙ contents-advance b v w ne few;
  same_size = length-optimize (advance b w) ∙ unfold advance in ground arith;
}
written-Drained b would_block v ne few = record { valid = v; rest = refl; same_size = refl }
written-Drained b failed v ne few = record { valid = v; rest = refl; same_size = refl }

-- Let the buffer be valid, and the destination accept no more than it is offered.
-- A call on an empty buffer asks the destination for nothing and writes 0 bytes. Otherwise the
-- destination is called once, on a non-empty front of the contents, and its answer is returned;
-- the bytes that it accepted are removed, and an error removes none.
pub write_to-Drained :
    (write : List ℕ → IoResult ℕ) (b : StreamBuffer)
    → IsValid b
    → ((s : List ℕ) → accepted (write s) ≤ length s)
    → Drained b (write_to write b).0 (write_to write b).1
      × ((b.head ≡ b.tail) × ((write_to write b).1 ≡ ok 0)
          ⊎ (0 < length (source_slice b))
            × (source_slice b ≡ take (length (source_slice b)) (contents b))
            × ((write_to write b).1 ≡ write (source_slice b)))
unfolding write_to is_empty
write_to-Drained write b v honest = elim (Bool-cases (b.head == b.tail)) [
  | inl e ↦ rw e (record { valid = v; rest = refl; same_size = refl }, inl ((==_iff _ _).0 e, refl))
  | inr e ↦
      let ne : b.head ≢ b.tail = λ q. cc (eq→== b.head b.tail q) in
      let (some_left, front) = source_slice-take b v ne in
      rw e (
        rw (written-result b (write (source_slice b)))
            (written-Drained b (write (source_slice b)) v ne (honest (source_slice b))),
        inr (some_left, front, written-result b (write (source_slice b))),
      )
]

-- A destination that takes the whole slice of a buffer that does not wrap leaves it new.
pub write_to_all :
    (write : List ℕ → IoResult ℕ) (b : StreamBuffer)
    → IsValid b
    → b.tail < b.head
    → write (source_slice b) ≡ ok (length (source_slice b))
    → ((write_to write b).0.head ≡ 0) × ((write_to write b).0.tail ≡ 0)
unfolding write_to written optimize advance is_empty
write_to_all write b v h all =
    let n = length-source_slice_flat b v h in
    let some_there : (b.head == b.tail) ≡ false = ne→== b.head b.tail (λ e. omega (arith, e)) in
    let ended : (b.head == b.tail + (b.head - b.tail)) ≡ true = eq→== _ _ (omega arith) in
    rw (some_there, all, n, lt→ltb b.tail b.head h, ended) (refl, refl)
