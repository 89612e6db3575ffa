-- ===== src/Checksum/Sums.antt =====
-- The loops against the sum of the words.
use gnirehtet.Base.{
  ℕ, ◌+◌, ◌*◌, ◌%◌, ◌^◌, ◌≤◌, ◌<◌, ◌≡◌, arith, List, [], ◌∷◌, length, IsBytes, u32,
}
use gnirehtet.Checksum.{sum_words, sum_pairs, checksum}
use gnirehtet.Checksum.Fold.{not16-fold}

-- The sum of the big-endian words of the data, an odd last byte padded by zero (RFC 1071).
abbrev pub word_sum : List ℕ → ℕ
word_sum [] = 0
word_sum (hi ∷ []) = hi * 256
word_sum (hi ∷ lo ∷ rest) = hi * 256 + lo + word_sum rest

pub word_sum-le : (bytes : List ℕ) → IsBytes bytes → word_sum bytes ≤ 2 ^ 15 * (length bytes + 1)
word_sum-le [] h = omega arith
word_sum-le (hi ∷ []) h = omega arith
word_sum-le (hi ∷ lo ∷ rest) (a, (b, h)) = omega (arith, word_sum-le rest h)

sum_words-eq :
    (sum : ℕ) (bytes : List ℕ)
    → IsBytes bytes
    → sum + 2 ^ 15 * (length bytes + 1) < 2 ^ 32
    → sum_words sum bytes ≡ sum + word_sum bytes
unfolding sum_words
sum_words-eq sum [] h fits = omega arith
sum_words-eq sum (hi ∷ []) (a, h) fits = omega arith
sum_words-eq sum (hi ∷ lo ∷ rest) (a, (b, h)) fits =
    let small : u32 (sum + (hi * 256 + lo)) ≡ sum + (hi * 256 + lo) = omega arith in
    omega (arith, small, sum_words-eq (u32 (sum + (hi * 256 + lo))) rest h (omega arith))

-- The two running sums of the unrolled loop, in bounds.
pub sum_pairs-eq :
    (hsum sum : ℕ) (bytes : List ℕ)
    → IsBytes bytes
    → hsum + 2 ^ 7 * (length bytes + 1) < 2 ^ 32
    → sum + 2 ^ 7 * (length bytes + 1) < 2 ^ 32
    → let r = sum_pairs (hsum, sum) bytes in
      (r.0 * 256 + r.1 ≡ hsum * 256 + sum + word_sum bytes)
      × (r.0 ≤ hsum + 2 ^ 7 * (length bytes + 1))
      × (r.1 ≤ sum + 2 ^ 7 * (length bytes + 1))
unfolding sum_pairs
sum_pairs-eq hsum sum [] h p q = omega arith
sum_pairs-eq hsum sum (hi ∷ []) (a, h) p q = omega arith
sum_pairs-eq hsum sum (hi ∷ lo ∷ rest) (a, (b, h)) p q =
    omega
      (arith, sum_pairs-eq (u32 (hsum + hi)) (u32 (sum + lo)) rest h (omega arith) (omega arith))

-- The checksum of fewer than 2 ^ 16 bytes completes the sum of their words to a multiple of 2 ^ 16 - 1,
-- which is what a receiver checks.
pub word_sum-checksum :
    (bytes : List ℕ)
    → IsBytes bytes
    → length bytes < 2 ^ 16
    → (word_sum bytes + checksum bytes) % 0xffff ≡ 0
unfolding checksum
word_sum-checksum bytes h fits = omega (
  arith,
  sum_words-eq 0 bytes h (omega arith),
  word_sum-le bytes h,
  not16-fold (sum_words 0 bytes)
      (omega (arith, sum_words-eq 0 bytes h (omega arith), word_sum-le bytes h)),
)
