-- ===== src/Checksum.antt =====
-- The ones-complement sums of relay-rust/src/relay/icmp_handler.rs, ipv4_header.rs and
-- tcp_header.rs: 16-bit words added up in a `u32` and then folded.
pub mod Fold
pub mod Sums
pub mod Pairs
use gnirehtet.Base.{
  ℕ, zero, suc, ◌+◌, ◌-◌, ◌*◌, ◌/◌, ◌%◌, ◌^◌, List, [], ◌∷◌, ◌==◌, if◌then◌else◌, u16, u32,
}

-- `while (sum & !0xFFFF) != 0 { sum = (sum & 0xFFFF) + (sum >> 16); }`; the mask is nonzero
-- exactly when the high half is.
unfoldable pub fold : ℕ → ℕ → ℕ
fold zero sum = sum
fold (suc fuel) sum =
    let rest = fold fuel (sum % 2 ^ 16 + sum / 2 ^ 16) in if sum / 2 ^ 16 == 0 then sum else rest

-- A `u32` is folded in two rounds at most.
abbrev pub fold_fuel : ℕ
fold_fuel = 3

-- `!sum as u16`.
abbrev pub not16 : ℕ → ℕ
not16 sum = 2 ^ 16 - 1 - u16 sum

-- The loop of `checksum` over the words of the data, an odd last byte being a high one.
unfoldable pub sum_words : ℕ → List ℕ → ℕ
sum_words sum [] = sum
sum_words sum (hi ∷ []) = u32 (sum + u32 (hi * 2 ^ 8))
sum_words sum (hi ∷ lo ∷ rest) = sum_words (u32 (sum + (hi * 256 + lo))) rest

-- `checksum` of icmp_handler.rs.
unfoldable pub checksum : List ℕ → ℕ
unfolding sum_words fold
checksum bytes = not16 (fold fold_fuel (sum_words 0 bytes))

-- The loops of `update_checksum_v4` and `update_checksum_v6`: the high-order bytes and the
-- low-order bytes are added up apart.
unfoldable pub sum_pairs : ℕ × ℕ → List ℕ → ℕ × ℕ
sum_pairs (hsum, sum) [] = (hsum, sum)
sum_pairs (hsum, sum) (hi ∷ []) = (u32 (hsum + hi), sum)
sum_pairs (hsum, sum) (hi ∷ lo ∷ rest) = sum_pairs (u32 (hsum + hi), u32 (sum + lo)) rest

-- `sum += hsum << 8`, and the fold.
unfoldable pub close_sum : ℕ × ℕ → ℕ
unfolding fold
close_sum (hsum, sum) = not16 (fold fold_fuel (u32 (sum + u32 (hsum * 2 ^ 8))))
