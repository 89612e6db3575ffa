-- ===== src/Base/Bytes.antt =====
-- Fixed-width words, and the big-endian accessors of the byteorder crate on a slice of bytes.
use Prim.Native.Nat.{ℕ, zero, suc, ◌+◌, ◌-◌, ◌*◌, ◌/◌, ◌%◌, ◌^◌, ◌≤◌, ◌<◌}
use mathlib.Core.Path.{◌≡◌, refl, ◌∙◌}
use mathlib.Core.Logic.{◌⊎◌}
use mathlib.Core.List.{List, [], ◌∷◌, ◌++◌}
use native.Mathlib.Omega.{arith}
use gnirehtet.Base.Lists.{
  length, get_or, set, take, drop, length-set, get_or-append, get_or-set_self, get_or-set_ne,
}

abbrev pub u8 : ℕ → ℕ
u8 n = n % 2 ^ 8

abbrev pub u16 : ℕ → ℕ
u16 n = n % 2 ^ 16

abbrev pub u32 : ℕ → ℕ
u32 n = n % 2 ^ 32

abbrev pub u64 : ℕ → ℕ
u64 n = n % 2 ^ 64

-- `Wrapping<u32>` addition and `wrapping_sub`.
abbrev pub add32 : ℕ → ℕ → ℕ
add32 a b = (a + b) % 2 ^ 32

abbrev pub sub32 : ℕ → ℕ → ℕ
sub32 a b = (a + 2 ^ 32 - b) % 2 ^ 32

abbrev pub byte_at : ℕ → List ℕ → ℕ
byte_at i raw = get_or raw i 0

abbrev pub IsBytes : List ℕ → Type 0
IsBytes [] = Unit {0}
IsBytes (b ∷ bs) = (b < 256) × IsBytes bs

pub byte_at-lt : (i : ℕ) (raw : List ℕ) → IsBytes raw → byte_at i raw < 256
byte_at-lt i [] h = omega arith
byte_at-lt zero (b ∷ bs) h = h.0
byte_at-lt (suc i) (b ∷ bs) h = byte_at-lt i bs h.1

-- `BigEndian::read_u16(&raw[i..i + 2])`.
unfoldable pub read_u16 : ℕ → List ℕ → ℕ
read_u16 i raw = byte_at i raw * 256 + byte_at (suc i) raw

-- `BigEndian::write_u16(&mut raw[i..i + 2], v)`.
unfoldable pub write_u16 : ℕ → ℕ → List ℕ → List ℕ
write_u16 i v raw = set (set raw i (u8 (v / 256))) (suc i) (u8 v)

-- `BigEndian::read_u32(&raw[i..i + 4])`.
unfoldable pub read_u32 : ℕ → List ℕ → ℕ
unfolding read_u16
read_u32 i raw = read_u16 i raw * 2 ^ 16 + read_u16 (suc (suc i)) raw

-- `BigEndian::write_u32(&mut raw[i..i + 4], v)`.
unfoldable pub write_u32 : ℕ → ℕ → List ℕ → List ℕ
unfolding write_u16
write_u32 i v raw = write_u16 (suc (suc i)) (u16 v) (write_u16 i (u16 (v / 2 ^ 16)) raw)

pub length-write_u16 : (i v : ℕ) (raw : List ℕ) → length (write_u16 i v raw) ≡ length raw
unfolding write_u16
length-write_u16 i v raw =
    omega
      (arith, length-set raw i (u8 (v / 256)), length-set (set raw i (u8 (v / 256))) (suc i) (u8 v))

pub length-write_u32 : (i v : ℕ) (raw : List ℕ) → length (write_u32 i v raw) ≡ length raw
length-write_u32 i v raw =
    unfold write_u32 in
    omega (
      arith,
      length-write_u16 (suc (suc i)) (u16 v) (write_u16 i (u16 (v / 2 ^ 16)) raw),
      length-write_u16 i (u16 (v / 2 ^ 16)) raw,
    )

-- The bytes of a write, and those that it leaves alone.
byte_at-write_u16 :
    (i v : ℕ) (raw : List ℕ)
    → suc i < length raw
    → (byte_at i (write_u16 i v raw) ≡ u8 (v / 256)) × (byte_at (suc i) (write_u16 i v raw) ≡ u8 v)
unfolding write_u16
byte_at-write_u16 i v raw h =
    let hi : ℕ = u8 (v / 256) in
    let one = set raw i hi in
    (
      get_or-set_ne one (suc i) i (u8 v) 0 (omega arith) ∙ get_or-set_self raw i hi 0 (omega arith),
      get_or-set_self one (suc i) (u8 v) 0 (omega (arith, length-set raw i hi)),
    )

pub byte_at-write_u16_ne :
    (j i v : ℕ) (raw : List ℕ)
    → (j < i) ⊎ (suc i < j)
    → byte_at j (write_u16 i v raw) ≡ byte_at j raw
unfolding write_u16
byte_at-write_u16_ne j i v raw h = ground (
  arith,
  get_or-set_ne raw i j (u8 (v / 256)) 0,
  get_or-set_ne (set raw i (u8 (v / 256))) (suc i) j (u8 v) 0,
)

pub read_u16-write_u16 :
    (i v : ℕ) (raw : List ℕ) → suc i < length raw → v < 2 ^ 16 → read_u16 i (write_u16 i v raw) ≡ v
unfolding read_u16
read_u16-write_u16 i v raw h fits = omega (arith, byte_at-write_u16 i v raw h)

pub read_u16-write_u16_ne :
    (j i v : ℕ) (raw : List ℕ)
    → (suc j < i) ⊎ (suc i < j)
    → read_u16 j (write_u16 i v raw) ≡ read_u16 j raw
unfolding read_u16
read_u16-write_u16_ne j i v raw h =
    ground (arith, byte_at-write_u16_ne j i v raw, byte_at-write_u16_ne (suc j) i v raw)

pub read_u32-write_u16_ne :
    (j i v : ℕ) (raw : List ℕ)
    → (suc (suc (suc j)) < i) ⊎ (suc i < j)
    → read_u32 j (write_u16 i v raw) ≡ read_u32 j raw
read_u32-write_u16_ne j i v raw h =
    unfold read_u32 in
    ground (arith, read_u16-write_u16_ne j i v raw, read_u16-write_u16_ne (suc (suc j)) i v raw)

pub byte_at-write_u32_ne :
    (j i v : ℕ) (raw : List ℕ)
    → (j < i) ⊎ (suc (suc (suc i)) < j)
    → byte_at j (write_u32 i v raw) ≡ byte_at j raw
byte_at-write_u32_ne j i v raw h =
    unfold write_u32 in
    ground (
      arith,
      byte_at-write_u16_ne j i (u16 (v / 2 ^ 16)) raw,
      byte_at-write_u16_ne j (suc (suc i)) (u16 v) (write_u16 i (u16 (v / 2 ^ 16)) raw),
    )

pub read_u16-write_u32_ne :
    (j i v : ℕ) (raw : List ℕ)
    → (suc j < i) ⊎ (suc (suc (suc i)) < j)
    → read_u16 j (write_u32 i v raw) ≡ read_u16 j raw
unfolding read_u16
read_u16-write_u32_ne j i v raw h =
    ground (arith, byte_at-write_u32_ne j i v raw, byte_at-write_u32_ne (suc j) i v raw)

pub read_u32-write_u32_ne :
    (j i v : ℕ) (raw : List ℕ)
    → (suc (suc (suc j)) < i) ⊎ (suc (suc (suc i)) < j)
    → read_u32 j (write_u32 i v raw) ≡ read_u32 j raw
read_u32-write_u32_ne j i v raw h =
    unfold read_u32 in
    ground (arith, read_u16-write_u32_ne j i v raw, read_u16-write_u32_ne (suc (suc j)) i v raw)

pub read_u32-write_u32 :
    (i v : ℕ) (raw : List ℕ)
    → suc (suc (suc i)) < length raw
    → v < 2 ^ 32
    → read_u32 i (write_u32 i v raw) ≡ v
read_u32-write_u32 i v raw h fits =
    let hi : ℕ = u16 (v / 2 ^ 16) in
    let one = write_u16 i hi raw in
    unfold read_u32 write_u32 in
    ground (
      arith,
      read_u16-write_u16_ne i (suc (suc i)) (u16 v) one,
      read_u16-write_u16 i hi raw,
      read_u16-write_u16 (suc (suc i)) (u16 v) one,
      length-write_u16 i hi raw,
    )

-- An index that runs past the end of a ring of `n` cells at most once.
pub wrap_below : (x n : ℕ) → x < n → x % n ≡ x
wrap_below x n h = grind arith

pub wrap_above : (x n : ℕ) → n ≤ x → x < n + n → x % n ≡ x - n
wrap_above x n h k = grind arith

pub read_u16-append :
    (i : ℕ) (raw more : List ℕ) → suc i < length raw → read_u16 i (raw ++ more) ≡ read_u16 i raw
unfolding read_u16
read_u16-append i raw more h =
    rw (get_or-append raw more i 0 (omega arith), get_or-append raw more (suc i) 0 h) refl

pub set-IsBytes : (xs : List ℕ) (i v : ℕ) → v < 256 → IsBytes xs → IsBytes (set xs i v)
set-IsBytes [] i v small h = h
set-IsBytes (x ∷ xs) zero v small h = (small, h.1)
set-IsBytes (x ∷ xs) (suc i) v small h = (h.0, set-IsBytes xs i v small h.1)

pub take-IsBytes : (n : ℕ) (xs : List ℕ) → IsBytes xs → IsBytes (take n xs)
take-IsBytes zero xs h = tt
take-IsBytes (suc n) [] h = tt
take-IsBytes (suc n) (x ∷ xs) h = (h.0, take-IsBytes n xs h.1)

pub drop-IsBytes : (n : ℕ) (xs : List ℕ) → IsBytes xs → IsBytes (drop n xs)
drop-IsBytes zero xs h = h
drop-IsBytes (suc n) [] h = tt
drop-IsBytes (suc n) (x ∷ xs) h = drop-IsBytes n xs h.1

pub write_u16-IsBytes : (i v : ℕ) (xs : List ℕ) → IsBytes xs → IsBytes (write_u16 i v xs)
unfolding write_u16
write_u16-IsBytes i v xs h =
    set-IsBytes _ (suc i) (u8 v) (omega arith) (set-IsBytes xs i (u8 (v / 256)) (omega arith) h)
