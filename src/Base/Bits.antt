-- ===== src/Base/Bits.antt =====
-- `&` with a mask and `|` of disjoint fields as arithmetic, from the digit recursion that the
-- native operations stand for.
use Prim.Native.Nat.{
  ℕ, zero, suc, ◌+◌, ◌*◌, ◌/◌, ◌%◌, ◌≤◌, ◌<◌, min, max, bit_and, bit_or, digits, bit_and-bitwise,
  bit_or-bitwise,
}
use mathlib.Core.Path.{◌≡◌, refl, ap}
use native.Mathlib.Omega.{arith}
use native.Mathlib.Nat.{le_refl}

-- More fuel than the first operand gives the same digits.
fuel_enough :
    (z : ℕ → ℕ) (f : ℕ → ℕ → ℕ) (n m a b : ℕ) → a ≤ n → a ≤ m → digits z f n a b ≡ digits z f m a b
fuel_enough z f zero zero a b p q = refl
fuel_enough z f zero (suc m) zero b p q = refl
fuel_enough z f zero (suc m) (suc a) b p q = elim p [ ]
fuel_enough z f (suc n) zero zero b p q = refl
fuel_enough z f (suc n) zero (suc a) b p q = elim q [ ]
fuel_enough z f (suc n) (suc m) zero b p q = refl
fuel_enough z f (suc n) (suc m) (suc a) b p q =
    omega (arith, fuel_enough z f n m (suc a / 2) (b / 2) (omega arith) (omega arith))

and_digit : (a b : ℕ) → bit_and a b ≡ bit_and (a / 2) (b / 2) * 2 + min (a % 2) (b % 2)
and_digit zero b = omega (arith, bit_and-bitwise 0 b, bit_and-bitwise 0 (b / 2))
and_digit (suc a) b = omega (
  arith,
  bit_and-bitwise (suc a) b,
  bit_and-bitwise (suc a / 2) (b / 2),
  fuel_enough (λ _. 0) min a (suc a / 2) (suc a / 2) (b / 2) (omega arith) (le_refl _),
)

or_digit : (a b : ℕ) → bit_or a b ≡ bit_or (a / 2) (b / 2) * 2 + max (a % 2) (b % 2)
or_digit zero b = omega (arith, bit_or-bitwise 0 b, bit_or-bitwise 0 (b / 2))
or_digit (suc a) b = omega (
  arith,
  bit_or-bitwise (suc a) b,
  bit_or-bitwise (suc a / 2) (b / 2),
  fuel_enough (λ y. y) max a (suc a / 2) (suc a / 2) (b / 2) (omega arith) (le_refl _),
)

bit_and-zero : (n a : ℕ) → a ≤ n → bit_and a 0 ≡ 0
bit_and-zero n zero h = refl
bit_and-zero zero (suc a) h = elim h [ ]
bit_and-zero (suc n) (suc a) h =
    omega (arith, and_digit (suc a) 0, bit_and-zero n (suc a / 2) (omega arith))

bit_or-zero : (n a : ℕ) → a ≤ n → bit_or a 0 ≡ a
bit_or-zero n zero h = refl
bit_or-zero zero (suc a) h = elim h [ ]
bit_or-zero (suc n) (suc a) h =
    omega (arith, or_digit (suc a) 0, bit_or-zero n (suc a / 2) (omega arith))

-- `h << k`, in a form that is linear at a numeral `k`.
abbrev pub shl : ℕ → ℕ → ℕ
shl zero h = h
shl (suc k) h = 2 * shl k h

-- `k` ones.
abbrev pub ones : ℕ → ℕ
ones zero = 0
ones (suc k) = 2 * ones k + 1

-- `|` of a field above bit `k` and one below is a sum.
pub bit_or_fields : (k h l : ℕ) → l < shl k 1 → bit_or (shl k h) l ≡ shl k h + l
bit_or_fields zero h l fits = ground (arith, bit_or-zero h h)
bit_or_fields (suc k) h l fits =
    ground (arith, or_digit (2 * shl k h) l, bit_or_fields k h (l / 2) (omega arith))

-- `&` with `k` ones keeps the field below bit `k`.
pub bit_and-ones : (k h l : ℕ) → l < shl k 1 → bit_and (shl k h + l) (ones k) ≡ l
bit_and-ones zero h l fits = ground (arith, bit_and-zero (h + l) (h + l))
bit_and-ones (suc k) h l fits =
    ground
      (arith, and_digit (2 * shl k h + l) (2 * ones k + 1), bit_and-ones k h (l / 2) (omega arith))

-- `&` with a mask above bit `k` works on the field above.
pub bit_and-shl :
    (k h l m : ℕ) → l < shl k 1 → bit_and (shl k h + l) (shl k m) ≡ shl k (bit_and h m)
bit_and-shl zero h l m fits = ground arith
bit_and-shl (suc k) h l m fits =
    ground
      (arith, and_digit (2 * shl k h + l) (2 * shl k m), bit_and-shl k h (l / 2) m (omega arith))

pub bit_and_f : (a : ℕ) → bit_and a 0xf ≡ a % 16
bit_and_f a = ground (arith, bit_and-ones 4 (a / 16) (a % 16))

pub bit_and_1ff : (a : ℕ) → bit_and a 0x1FF ≡ a % 512
bit_and_1ff a = ground (arith, bit_and-ones 9 (a / 512) (a % 512))

-- A number below 2 ^ 6 has none of the bits of 0xc0.
pub and_c0 : (n : ℕ) → n < 64 → bit_and n 0xc0 ≡ 0
and_c0 n h =
    let high : n / 2 / 2 / 2 / 2 / 2 / 2 ≡ 0 = omega arith in
    let last : bit_and (n / 2 / 2 / 2 / 2 / 2 / 2) 3 ≡ 0 = ap (λ k. bit_and k 3) high in
    omega (
      arith,
      and_digit n 192,
      and_digit (n / 2) 96,
      and_digit (n / 2 / 2) 48,
      and_digit (n / 2 / 2 / 2) 24,
      and_digit (n / 2 / 2 / 2 / 2) 12,
      and_digit (n / 2 / 2 / 2 / 2 / 2) 6,
      last,
    )
