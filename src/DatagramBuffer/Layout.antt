-- ===== src/DatagramBuffer/Layout.antt =====
-- The bytes of the stored datagrams.
use gnirehtet.Base.{
  ℕ, zero, suc, ◌+◌, ◌-◌, ◌/◌, ◌≤◌, ◌<◌, ◌^◌, ◌≡◌, refl, sym, ap, ◌∙◌, arith, List, [], ◌∷◌, ◌++◌,
  append_assoc, append-nil, length, take, drop, slice, splice, set, length-append, length-take,
  length-drop, drop-take, drop-drop, slice-splice, take_left, drop-splice_low, take-append-drop,
  drop_left, get_or, byte_at, read_u16, write_u16, length-write_u16, u8, u16,
}

-- A datagram as it stands in the buffer.
abbrev pub block : List ℕ → List ℕ
block d = u8 (length d / 256) ∷ u8 (length d) ∷ d

abbrev pub encode : List (List ℕ) → List ℕ
encode [] = []
encode (d ∷ ds) = block d ++ encode ds

pub encode-append :
    (ds : List (List ℕ)) (d : List ℕ) → encode (ds ++ (d ∷ [])) ≡ encode ds ++ block d
encode-append [] d = append-nil (block d)
encode-append (d' ∷ ds) d =
    ap (λ t. block d' ++ t) (encode-append ds d)
    ∙ sym (append_assoc (block d') (encode ds) (block d))

-- Setting two bytes is a splice.
set_two :
    (i a b : ℕ) (raw : List ℕ)
    → i + 2 ≤ length raw
    → set (set raw i a) (suc i) b ≡ splice i (a ∷ b ∷ []) raw
set_two i a b [] fits = absurd (omega arith)
set_two zero a b (x ∷ []) fits = absurd (omega arith)
set_two zero a b (x ∷ y ∷ raw) fits = refl
set_two (suc i) a b (x ∷ raw) fits =
    let e : suc (i + 2) ≡ suc i + 2 = omega arith in
    ap (◌∷◌ x) (
      set_two i a b raw (omega arith)
      ∙ ap (λ t. take i raw ++ (a ∷ b ∷ t)) (ap (λ k. drop k (x ∷ raw)) e))

write_u16-splice :
    (i v : ℕ) (raw : List ℕ)
    → i + 2 ≤ length raw
    → write_u16 i v raw ≡ splice i (u8 (v / 256) ∷ u8 v ∷ []) raw
unfolding write_u16
write_u16-splice i v raw fits = set_two i (u8 (v / 256)) (u8 v) raw fits

-- What a store at the head leaves between a tail at or below it and the new head.
pub slice-stored :
    (tail head : ℕ) (d buf : List ℕ)
    → tail ≤ head
    → head + 2 + length d ≤ length buf
    → length d < 2 ^ 16
    → slice tail (head + 2 + length d) (splice (head + 2) d (write_u16 head (u16 (length d)) buf))
      ≡ slice tail head buf ++ block d
slice-stored tail head d buf low fits few =
    let word : u16 (length d) ≡ length d = omega arith in
    let header = u8 (length d / 256) ∷ u8 (length d) ∷ [] in
    let marked = write_u16 head (u16 (length d)) buf in
    let is_splice : marked ≡ splice head header buf =
      ap (λ n. write_u16 head n buf) word ∙ write_u16-splice head (length d) buf (omega arith) in
    slice-splice marked d tail (head + 2) (omega arith)
      (omega (arith, length-write_u16 head (u16 (length d)) buf))
    ∙ ap (λ t. t ++ d)
        (ap (λ t. slice tail (head + 2) t) is_splice
          ∙ slice-splice buf header tail head low (omega arith))
    ∙ append_assoc (slice tail head buf) header d

-- A front of a window.
pub drop-slice : (k lo hi : ℕ) (buf : List ℕ) → drop k (slice lo hi buf) ≡ slice (lo + k) hi buf
drop-slice k lo hi buf =
    drop-take k (hi - lo) (drop lo buf)
    ∙ ap (take (hi - lo - k)) (drop-drop lo k buf)
    ∙ ap (λ n. take n (drop (lo + k) buf)) (omega arith)

-- A store below the tail leaves what is above it.
pub slice-stored_low :
    (tail top head : ℕ) (d buf : List ℕ)
    → head + 2 + length d ≤ tail
    → tail ≤ length buf
    → slice tail top (splice (head + 2) d (write_u16 head (u16 (length d)) buf))
      ≡ slice tail top buf
slice-stored_low tail top head d buf low fits =
    let marked = write_u16 head (u16 (length d)) buf in
    let same_length = length-write_u16 head (u16 (length d)) buf in
    ap (take (top - tail)) (
      drop-splice_low marked d tail (head + 2) low (omega (arith, same_length))
      ∙ ap (drop tail) (write_u16-splice head (u16 (length d)) buf (omega arith))
      ∙ drop-splice_low buf (u8 (u16 (length d) / 256) ∷ u8 (u16 (length d)) ∷ []) tail head
          (omega arith) fits)

get_or-drop : (k i : ℕ) (raw : List ℕ) → get_or (drop k raw) i 0 ≡ get_or raw (k + i) 0
get_or-drop zero i raw = ap (λ n. get_or raw n 0) (omega arith)
get_or-drop (suc k) i [] = refl
get_or-drop (suc k) i (x ∷ raw) =
    let e : suc (k + i) ≡ suc k + i = omega arith in
    get_or-drop k i raw ∙ ap (λ n. get_or (x ∷ raw) n 0) e

-- What stands at the front of a window that begins with a block.
module _ (lo hi : ℕ) (d rest buf : List ℕ) (few : length d < 2 ^ 16)
    (window : slice lo hi buf ≡ block d ++ rest) (fits : hi ≤ length buf) where
  behind : drop lo buf ≡ block d ++ (rest ++ drop (hi - lo) (drop lo buf))
  behind =
      sym (take-append-drop (hi - lo) (drop lo buf))
      ∙ ap (λ t. t ++ drop (hi - lo) (drop lo buf)) window
      ∙ append_assoc (block d) rest (drop (hi - lo) (drop lo buf))

  pub block_length : read_u16 lo buf ≡ length d
  unfolding read_u16
  block_length =
      let low_byte : get_or (drop lo buf) 1 0 ≡ byte_at (suc lo) buf =
        get_or-drop lo 1 buf ∙ ap (λ k. get_or buf k 0) (omega arith) in
      let high_byte : get_or (drop lo buf) 0 0 ≡ byte_at lo buf =
        get_or-drop lo 0 buf ∙ ap (λ k. get_or buf k 0) (omega arith) in
      let low : get_or (drop lo buf) 1 0 ≡ u8 (length d) = ap (λ t. get_or t 1 0) behind in
      let high : get_or (drop lo buf) 0 0 ≡ u8 (length d / 256) = ap (λ t. get_or t 0 0) behind in
      omega (arith, low_byte, high_byte, low, high)

  pub block_bytes : slice (lo + 2) (lo + 2 + length d) buf ≡ d
  block_bytes =
      ap (take (lo + 2 + length d - (lo + 2))) (sym (drop-drop lo 2 buf) ∙ ap (drop 2) behind)
      ∙ take_left (lo + 2 + length d - (lo + 2)) d (rest ++ drop (hi - lo) (drop lo buf))
          (omega arith)

  pub block_rest : slice (lo + 2 + length d) hi buf ≡ rest
  block_rest =
      ap (λ k. slice k hi buf) (omega arith)
      ∙ sym (drop-slice (2 + length d) lo hi buf)
      ∙ ap (drop (2 + length d)) window
      ∙ drop_left (2 + length d) (block d) rest (omega arith)

  pub block_fits : lo + 2 + length d ≤ hi
  block_fits = omega (
    arith,
    length-take (hi - lo) (drop lo buf),
    length-drop lo buf,
    ap length window,
    length-append (block d) rest,
  )
