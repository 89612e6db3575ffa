-- ===== src/StreamBuffer/Append.antt =====
-- `read_from` appends to the bytes that the buffer holds.
use gnirehtet.Base.{
  ℕ, ◌+◌, ◌-◌, ◌%◌, ◌≤◌, ◌<◌, ◌≡◌, arith, refl, sym, ◌∙◌, List, length, take, drop, splice, ◌++◌,
  length-take, length-drop, length-splice, drop_all, append_assoc, append-nil, drop-splice,
  slice-splice, drop-splice_low, take-splice_low, dec_lt, wrap_below, wrap_above, le→leb, lt→leb,
  take-append-drop,
}
use gnirehtet.StreamBuffer.{StreamBuffer, remaining, read_from}
use gnirehtet.StreamBuffer.Contents.{contents-flat, contents-wrapped, contents, IsValid}

module _ (b : StreamBuffer) (src : List ℕ) (v : IsValid b) (room : length src ≤ remaining b) where
  open b use {buf, head, tail}

  abbrev stored : List ℕ → ℕ → StreamBuffer
  stored buf' head' = record { buf = buf'; head = head'; tail = tail }

  read_from-fits :
      (h : ℕ)
      → head + length src ≤ length buf
      → (head + length src) % length buf ≡ h
      → read_from b src ≡ stored (splice head src buf) h
  unfolding read_from
  read_from-fits h fits e = rw (le→leb (length src) (length buf - head) (omega arith), e)

  -- The three ways that the bytes can lie: right of the head, below the tail, or across the end.
  read_from-right :
      tail ≤ head → head + length src < length buf → contents (read_from b src) ≡ contents b ++ src
  read_from-right low fits =
      rw
        (
          read_from-fits _ (omega arith) (wrap_below (head + length src) (length buf) fits),
          contents-flat (stored (splice head src buf) (head + length src)) (omega arith),
          contents-flat b low,
        )
        (slice-splice buf src tail head low (omega arith))

  -- The last byte fills the last cell: the head goes back to 0.
  read_from-end :
      tail ≤ head
      → 0 < tail
      → head + length src ≡ length buf
      → contents (read_from b src) ≡ contents b ++ src
  read_from-end low pos e =
      rw
        (
          read_from-fits 0 (omega arith) (
              wrap_above (head + length src) (length buf) (omega arith) (omega (arith, v.head_in))
              ∙ sub_self),
          contents-wrapped (stored (splice head src buf) 0) pos,
          contents-flat b low,
          drop-splice buf src tail head low (omega arith),
          drop_all (head + length src) buf (omega arith),
        )
        (simp (append-nil))
    where
      sub_self : head + length src - length buf ≡ 0
      sub_self = omega arith

  read_from-low :
      head < tail → length src < tail - head → contents (read_from b src) ≡ contents b ++ src
  read_from-low low gap =
      rw
        (
          read_from-fits _ (omega (arith, v.tail_in))
              (wrap_below (head + length src) (length buf) (omega (arith, v.tail_in))),
          contents-wrapped (stored (splice head src buf) (head + length src)) (omega arith),
          contents-wrapped b low,
          drop-splice_low buf src tail head (omega arith) (omega (arith, v.tail_in)),
          take-splice_low buf src tail head (omega arith) (omega (arith, v.tail_in)),
        )
        (sym (append_assoc (drop tail buf) (take head buf) src))

  -- Across the end: what fits right of the head, then the rest from the left end.
  module _ (over : length buf < head + length src) (short : head + length src < length buf + tail)
      (low : tail ≤ head) where
    abbrev first : List ℕ
    first = take (length buf - head) src

    abbrev rest : List ℕ
    rest = drop (length buf - head) src

    abbrev middle : List ℕ
    middle = splice head first buf

    length-first : head + length first ≡ length buf
    length-first = omega (arith, length-take (length buf - head) src, v.head_in)

    length-middle : length middle ≡ length buf
    length-middle = length-splice head first buf (omega (arith, length-first))

    head-rest : (head + length src) % length buf ≡ 0 + length rest
    head-rest =
        wrap_above (head + length src) (length buf) (omega arith) (omega (arith, v.tail_in))
        ∙ omega (arith, length-drop (length buf - head) src, v.head_in)

    read_from-wraps : read_from b src ≡ stored (splice 0 rest middle) (0 + length rest)
    unfolding read_from
    read_from-wraps = rw (lt→leb (length src) (length buf - head) (omega arith), head-rest)

    rest_low : 0 + length rest < tail
    rest_low = omega (arith, length-drop (length buf - head) src, v.head_in)

    read_from-across : contents (read_from b src) ≡ contents b ++ src
    read_from-across = rw (
      read_from-wraps,
      contents-wrapped (stored (splice 0 rest middle) (0 + length rest)) rest_low,
      contents-flat b low,
      drop-splice_low middle rest tail 0 (omega (arith, rest_low))
          (omega (arith, length-middle, v.tail_in)),
      take-splice_low middle rest tail 0 (omega (arith, rest_low))
          (omega (arith, length-middle, v.tail_in)),
      drop-splice buf first tail head low (omega (arith, length-first)),
      drop_all (head + length first) buf (omega (arith, length-first)),
      append-nil,
      append_assoc,
      take-append-drop,
    )

-- What `remaining` says of the free cells, in each shape of the window.
room_flat :
    (b : StreamBuffer) (n : ℕ)
    → IsValid b
    → n ≤ remaining b
    → b.tail ≤ b.head
    → b.head + n < length b.buf + b.tail
unfolding remaining
room_flat b n v room low = ground arith

room_wrapped :
    (b : StreamBuffer) (n : ℕ) → IsValid b → n ≤ remaining b → b.head < b.tail → b.head + n < b.tail
unfolding remaining
room_wrapped b n v room low = ground arith

-- In a valid buffer with room for the source, `read_from` leaves what the buffer held and behind it
-- the source, wherever the cells end.
pub contents-read_from :
    (b : StreamBuffer) (src : List ℕ)
    → IsValid b
    → length src ≤ remaining b
    → contents (read_from b src) ≡ contents b ++ src
contents-read_from b src v room = elim (dec_lt b.head b.tail) [
  | yes low ↦ read_from-low b src v room low (omega (arith, room_wrapped b (length src) v room low))
  | no flat ↦
      let low : b.tail ≤ b.head = omega arith in
      let short = room_flat b (length src) v room low in
      elim (dec_lt (b.head + length src) (length b.buf)) [
        | yes fits ↦ read_from-right b src v room low fits
        | no more ↦ elim (dec_lt (length b.buf) (b.head + length src)) [
          | yes over ↦ read_from-across b src v room over short low
          | no exact ↦ read_from-end b src v room low (omega arith) (omega arith)
        ]
      ]
]

-- The number of cells does not change.
pub length-read_from :
    (b : StreamBuffer) (src : List ℕ)
    → IsValid b
    → length src ≤ remaining b
    → length (read_from b src).buf ≡ length b.buf
length-read_from b src v room = elim (dec_lt (length b.buf) (b.head + length src)) [
  | no fits ↦
      rw (read_from-fits b src v room _ (omega arith) refl)
        (length-splice b.head src b.buf (omega arith))
  | yes over ↦
      let low : b.tail ≤ b.head = elim (dec_lt b.head b.tail) [
        | yes h ↦ absurd (omega (arith, room_wrapped b (length src) v room h, v.tail_in))
        | no h ↦ omega arith
      ] in
      let short = room_flat b (length src) v room low in
      let mid = length-middle b src v room over short low in
      rw (read_from-wraps b src v room over short low) (
        length-splice 0 (drop (length b.buf - b.head) src) _
          (omega (arith, mid, rest_low b src v room over short low, v.tail_in))
        ∙ mid)
]

-- In a valid buffer with room for the source, both indices stay among the cells.
pub read_from-IsValid :
    (b : StreamBuffer) (src : List ℕ)
    → IsValid b
    → length src ≤ remaining b
    → IsValid (read_from b src)
read_from-IsValid b src v room =
    let same = length-read_from b src v room in
    record {
      head_in = rw same (unfold read_from in ground (arith, v.head_in));
      tail_in = rw same (unfold read_from in ground (arith, v.tail_in));
    }

pub read_from-tail : (b : StreamBuffer) (src : List ℕ) → (read_from b src).tail ≡ b.tail
unfolding read_from
read_from-tail b src = ground arith
