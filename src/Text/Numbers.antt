-- ===== src/Text/Numbers.antt =====
-- The numbers of Rust's standard library as texts.
use gnirehtet.Base.{
  ℕ, zero, suc, ◌+◌, ◌-◌, ◌*◌, ◌/◌, ◌%◌, ◌^◌, ◌++◌, ◌&&◌, List, [], ◌∷◌, Option, none, some, ltb,
  leb, ◌==◌, if◌then◌else◌,
}

-- `char::to_digit(16)`.
unfoldable pub hex_digit : ℕ → Option ℕ
hex_digit c =
    if leb 48 c && leb c 57
    then some (c - 48)
    else if leb 97 c && leb c 102
    then some (c - 87)
    else if leb 65 c && leb c 70
    then some (c - 55)
    else none

-- A `u32` grows by a digit, if it does not overflow.
unfoldable pub hex_step : ℕ → Option ℕ → Option ℕ
hex_step n none = none
hex_step n (some d) = if ltb (n * 16 + d) (2 ^ 32) then some (n * 16 + d) else none

unfoldable pub hex_digits : ℕ → List ℕ → Option ℕ
hex_digits n [] = some n
hex_digits n (c ∷ cs) = elim (hex_step n (hex_digit c)) [ none ↦ none | some m ↦ hex_digits m cs ]

-- `u32::from_str_radix(_, 16)`: a plus sign may come first.
unfoldable pub from_hex : List ℕ → Option ℕ
from_hex [] = none
from_hex (c ∷ []) = hex_digits 0 (c ∷ [])
from_hex (c ∷ d ∷ cs) = if c == 43 then hex_digits 0 (d ∷ cs) else hex_digits 0 (c ∷ d ∷ cs)

unfoldable pub digit : ℕ → Option ℕ
digit c = if leb 48 c && leb c 57 then some (c - 48) else none

unfoldable pub decimal_step : ℕ → ℕ → Option ℕ → Option ℕ
decimal_step bits n none = none
decimal_step bits n (some d) = if ltb (n * 10 + d) (2 ^ bits) then some (n * 10 + d) else none

unfoldable pub decimal_digits : ℕ → ℕ → List ℕ → Option ℕ
unfolding digit decimal_step
decimal_digits bits n [] = some n
decimal_digits bits n (c ∷ cs) = elim (decimal_step bits n (digit c)) [
  | none ↦ none
  | some m ↦ decimal_digits bits m cs
]

-- `str::parse`, of an unsigned number of so many bits: a plus sign may come first.
unfoldable pub parse_unsigned : ℕ → List ℕ → Option ℕ
unfolding decimal_digits
parse_unsigned bits [] = none
parse_unsigned bits (c ∷ []) = decimal_digits bits 0 (c ∷ [])
parse_unsigned bits (c ∷ d ∷ cs) =
    if c == 43 then decimal_digits bits 0 (d ∷ cs) else decimal_digits bits 0 (c ∷ d ∷ cs)

-- `to_string` of a number of at most `rounds` digits.
unfoldable pub print_digits : ℕ → ℕ → List ℕ
print_digits zero n = []
print_digits (suc rounds) n =
    let rest = print_digits rounds (n / 10) in
    if ltb n 10 then (48 + n) ∷ [] else rest ++ ((48 + n % 10) ∷ [])

-- Of a `u16`.
unfoldable pub print_u16 : ℕ → List ℕ
unfolding print_digits
print_u16 = print_digits 5
