-- ===== src/Text/Hex.antt =====
-- Four hexadecimal digits.
use gnirehtet.Base.{
  ℕ, ◌+◌, ◌*◌, ◌/◌, ◌%◌, ◌^◌, ◌<◌, ◌≡◌, refl, arith, List, [], ◌∷◌, some, ltb, ◌==◌, if◌then◌else◌,
  lt→ltb, length, ap, ◌∙◌, true, false,
}
use gnirehtet.Text.Lines.{IsAscii}
use gnirehtet.Text.Numbers.{hex_digit, hex_step, hex_digits, from_hex}

-- The digit's character, in lower case as `{:04x}` prints it.
unfoldable pub hex_char : ℕ → ℕ
hex_char d = if ltb d 10 then 48 + d else 87 + d

unfoldable pub hex4 : ℕ → List ℕ
unfolding hex_char
hex4 n =
    hex_char (n / 4096) ∷ hex_char (n / 256 % 16) ∷ hex_char (n / 16 % 16) ∷ hex_char (n % 16) ∷ []

hex_digit-hex_char : (d : ℕ) → d < 16 → hex_digit (hex_char d) ≡ some d
unfolding hex_digit hex_char
hex_digit-hex_char d h = ground arith

hex_char_plus : (d : ℕ) → d < 16 → (hex_char d == 43) ≡ false
unfolding hex_char
hex_char_plus d h = ground arith

hex_char_ascii : (d : ℕ) → d < 16 → ltb (hex_char d) 0x80 ≡ true
unfolding hex_char
hex_char_ascii d h = ground arith

hex_step_fits : (n d : ℕ) → n * 16 + d < 2 ^ 32 → hex_step n (some d) ≡ some (n * 16 + d)
unfolding hex_step
hex_step_fits n d few = rw (lt→ltb (n * 16 + d) (2 ^ 32) few) refl

hex_digits-cons :
    (n d : ℕ) (cs : List ℕ)
    → d < 16
    → n * 16 + d < 2 ^ 32
    → hex_digits n (hex_char d ∷ cs) ≡ hex_digits (n * 16 + d) cs
unfolding hex_digits
hex_digits-cons n d cs h few = rw (hex_digit-hex_char d h, hex_step_fits n d few, hex_digits) refl

four_digits : (n : ℕ) → n < 2 ^ 16 → hex_digits 0 (hex4 n) ≡ some n
unfolding hex4
four_digits n h =
    let a = n / 4096 in
    let b = n / 256 % 16 in
    let c = n / 16 % 16 in
    let d = n % 16 in
    hex_digits-cons 0 a _ (omega arith) (omega arith)
    ∙ hex_digits-cons (0 * 16 + a) b _ (omega arith) (omega arith)
    ∙ hex_digits-cons ((0 * 16 + a) * 16 + b) c _ (omega arith) (omega arith)
    ∙ hex_digits-cons (((0 * 16 + a) * 16 + b) * 16 + c) d [] (omega arith) (omega arith)
    ∙ unfold hex_digits in ap some (omega arith)

no_sign : (n : ℕ) → n < 2 ^ 16 → from_hex (hex4 n) ≡ hex_digits 0 (hex4 n)
unfolding from_hex hex4
no_sign n h = rw (hex_char_plus (n / 4096) (omega arith)) refl

-- Four digits are read as the number that they print.
pub from_hex-hex4 : (n : ℕ) → n < 2 ^ 16 → from_hex (hex4 n) ≡ some n
from_hex-hex4 n h = no_sign n h ∙ four_digits n h

pub hex4-IsAscii : (n : ℕ) → n < 2 ^ 16 → IsAscii (hex4 n)
unfolding hex4
hex4-IsAscii n h =
    let a = hex_char_ascii (n / 4096) (omega arith) in
    let b = hex_char_ascii (n / 256 % 16) (omega arith) in
    let c = hex_char_ascii (n / 16 % 16) (omega arith) in
    (a, (b, (c, (hex_char_ascii (n % 16) (omega arith), tt))))

pub length-hex4 : (n : ℕ) → length (hex4 n) ≡ 4
unfolding hex4
length-hex4 n = omega arith
