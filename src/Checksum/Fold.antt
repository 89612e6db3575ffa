-- ===== src/Checksum/Fold.antt =====
-- Folding keeps the value modulo 2 ^ 16 - 1 and ends within the fuel.
use gnirehtet.Base.{ℕ, zero, suc, ◌+◌, ◌/◌, ◌%◌, ◌^◌, ◌<◌, ◌≡◌, arith}
use gnirehtet.Checksum.{fold, fold_fuel, not16}

fold-mod : (fuel sum : ℕ) → fold fuel sum % 0xffff ≡ sum % 0xffff
unfolding fold
fold-mod zero sum = omega arith
fold-mod (suc fuel) sum = ground (arith, fold-mod fuel (sum % 2 ^ 16 + sum / 2 ^ 16))

-- With a fuel of three or more the result of a 32-bit sum fits sixteen bits.
fold-lt : (fuel sum : ℕ) → sum < 2 ^ 32 → fold (suc (suc (suc fuel))) sum < 2 ^ 16
unfolding fold
fold-lt fuel sum h = ground arith

fold_enough : (fuel sum : ℕ) → sum < 2 ^ 32 → fold (suc (suc (suc fuel))) sum ≡ fold fold_fuel sum
unfolding fold
fold_enough fuel sum h = ground arith

-- The loop on a 32-bit sum ends after two rounds: the result for any fuel of three or more is that
-- for three, and fits sixteen bits, so that no further round would be made.
fold_ends :
    (fuel sum : ℕ)
    → sum < 2 ^ 32
    → (fold (suc (suc (suc fuel))) sum ≡ fold fold_fuel sum) × (fold fold_fuel sum < 2 ^ 16)
fold_ends fuel sum h = (fold_enough fuel sum h, fold-lt 0 sum h)

-- The complement makes a sum that is a multiple of 2 ^ 16 - 1.
pub not16-fold : (sum : ℕ) → sum < 2 ^ 32 → (sum + not16 (fold fold_fuel sum)) % 0xffff ≡ 0
not16-fold sum h = omega (arith, fold-mod fold_fuel sum, fold-lt 0 sum h)
