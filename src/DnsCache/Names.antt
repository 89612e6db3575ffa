-- ===== src/DnsCache/Names.antt =====
-- The name that a query is looked up by.
use gnirehtet.Base.{
  ℕ, zero, suc, ◌+◌, ◌-◌, ◌≤◌, ◌<◌, ◌≡◌, ◌∙◌, ap, refl, sym, arith, false, List, [], ◌∷◌, ◌++◌,
  some, length, length-append, take, drop, slice, take_left, drop_left, append_assoc, le→leb,
  le→ltb, lt→leb, drop-drop, and_c0, ne→==, ◌==◌, byte_at, bit_and,
}
use gnirehtet.DnsCache.{labels, label_fuel, join, named, extract_dns_name}

-- Any two fuels above the bytes that are left give the same labels, so that the loop ends by itself.
pub labels_enough :
    (fuel fuel' offset : ℕ) (packet : List ℕ)
    → length packet < fuel + offset
    → length packet < fuel' + offset
    → labels fuel offset packet ≡ labels fuel' offset packet
unfolding labels
labels_enough zero zero offset packet h h' = refl
labels_enough zero (suc fuel') offset packet h h' =
    rw (le→leb (length packet) offset (omega arith)) refl
labels_enough (suc fuel) zero offset packet h h' =
    rw (le→leb (length packet) offset (omega arith)) refl
labels_enough (suc fuel) (suc fuel') offset packet h h' =
    rw
      (labels_enough fuel fuel' (offset + 1 + byte_at offset packet) packet (omega arith)
        (omega arith))
      refl

-- The labels of a name as a query holds them.
abbrev pub encode : List (List ℕ) → List ℕ
encode [] = 0 ∷ []
encode (l ∷ ls) = length l ∷ l ++ encode ls

-- Each label has 1 to 63 bytes.
abbrev pub AreLabels : List (List ℕ) → Type 0
AreLabels [] = Unit {0}
AreLabels (l ∷ ls) = ((0 < length l) × (length l < 64)) × AreLabels ls

-- What starts at an offset.
drop_at :
    (n : ℕ) (xs : List ℕ) (y : ℕ) (ys : List ℕ)
    → drop n xs ≡ y ∷ ys
    → (byte_at n xs ≡ y) × (drop (suc n) xs ≡ ys) × (length xs ≡ n + 1 + length ys)
drop_at zero xs y ys e = (ap (byte_at 0) e, ap (drop 1) e, ap length e ∙ omega arith)
drop_at (suc n) [] y ys e = absurd (cc e)
drop_at (suc n) (x ∷ xs) y ys e =
    let (first, later, n_all) = drop_at n xs y ys e in (first, later, omega (arith, n_all))

-- A label's length is no compression mark.
plain_length : (n : ℕ) → n < 64 → (bit_and n 0xc0 == 0xc0) ≡ false
plain_length n h = ne→== (bit_and n 0xc0) 0xc0 (λ e. omega (arith, e, and_c0 n h))

labels-encode :
    (ls : List (List ℕ)) (rest : List ℕ) (fuel offset : ℕ) (packet : List ℕ)
    → AreLabels ls
    → length packet < fuel + offset
    → drop offset packet ≡ encode ls ++ rest
    → labels fuel offset packet ≡ some ls
unfolding labels
labels-encode [] rest zero offset packet ok_ enough e =
    absurd (omega (arith, (drop_at offset packet 0 rest e).2))
labels-encode (l ∷ ls) rest zero offset packet ok_ enough e =
    absurd (omega (arith, (drop_at offset packet (length l) (l ++ encode ls ++ rest) e).2))
labels-encode [] rest (suc fuel) offset packet ok_ enough e =
    let (first, later, n) = drop_at offset packet 0 rest e in
    rw (lt→leb (length packet) offset (omega (arith, n)), first) refl
labels-encode (l ∷ ls) rest (suc fuel) offset packet (size, ok_) enough e =
    let (first, later, n) =
      drop_at offset packet (length l) (l ++ (encode ls ++ rest))
        (e ∙ ap (◌∷◌ (length l)) (append_assoc l (encode ls) rest)) in
    let one : offset + 1 ≡ suc offset = omega arith in
    let past : offset + 1 + length l ≡ suc offset + length l = omega arith in
    let label : slice (offset + 1) (offset + 1 + length l) packet ≡ l =
      ap (λ k. take (offset + 1 + length l - (offset + 1)) (drop k packet)) one
      ∙ ap (take (offset + 1 + length l - (offset + 1))) later
      ∙ take_left _ l (encode ls ++ rest) (omega arith) in
    let behind : drop (offset + 1 + length l) packet ≡ encode ls ++ rest =
      ap (λ k. drop k packet) past
      ∙ sym (drop-drop (suc offset) (length l) packet)
      ∙ ap (drop (length l)) later
      ∙ drop_left (length l) l (encode ls ++ rest) refl in
    let next = labels-encode ls rest fuel (offset + 1 + length l) packet ok_ (omega arith) behind in
    let all = length-append l (encode ls ++ rest) in
    rw
      (
        first,
        lt→leb (length packet) offset (omega (arith, n)),
        ne→== (length l) 0 (λ z. omega (arith, z, size)),
        plain_length (length l) size.1,
        le→ltb (length packet) (offset + 1 + length l) (omega (arith, n, all)),
        label,
        next,
      )
      refl

-- A query of a header of twelve bytes and one or more labels of 1 to 63 bytes, whatever comes behind them, is looked
-- up by its labels in lower case with dots between them.
pub extract_dns_name-encode :
    (lower : List ℕ → List ℕ) (header l rest : List ℕ) (ls : List (List ℕ))
    → length header ≡ 12
    → AreLabels (l ∷ ls)
    → extract_dns_name lower (header ++ (encode (l ∷ ls) ++ rest)) ≡ some (join lower (l ∷ ls))
unfolding extract_dns_name named label_fuel
extract_dns_name-encode lower header l rest ls twelve ok_ =
    let packet = header ++ (encode (l ∷ ls) ++ rest) in
    let long : 12 ≤ length packet =
      omega (arith, twelve, length-append header (encode (l ∷ ls) ++ rest)) in
    let found =
      labels-encode (l ∷ ls) rest (length packet + 1) 12 packet ok_ (omega arith)
        (drop_left 12 header (encode (l ∷ ls) ++ rest) (sym twelve)) in
    rw (le→ltb (length packet) 12 long, found) refl
