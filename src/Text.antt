-- ===== src/Text.antt =====
-- The text functions of Rust's standard library that the code around adb uses. A text is the list of its code points.
pub mod Lines
pub mod Numbers
pub mod Hex
use gnirehtet.Base.{
  ℕ, zero, suc, ◌+◌, ◌-◌, ◌*◌, ◌/◌, ◌%◌, ◌^◌, ◌++◌, ◌≡◌, refl, sym, ap, Bool, true, false, ◌&&◌,
  ◌||◌, List, [], ◌∷◌, ◌↔◌, Option, none, some, ltb, leb, ◌==◌, if◌then◌else◌, Equality, arith,
  ==_iff,
}

-- What a decoder of UTF-8 expects: so many further bytes, of which the next lies in a range.
pub record Pending : Type 0 where
  pub more : ℕ
  pub low : ℕ
  pub high : ℕ
  pub code : ℕ

abbrev pub at_start : Pending
at_start = record { more = 0; low = 0; high = 0; code = 0 }

-- After a leading byte that is not ASCII, or nothing for one that begins no character.
unfoldable pub leading : ℕ → Option Pending
leading b =
    if leb 0xc2 b && leb b 0xdf
    then some (record { more = 1; low = 0x80; high = 0xbf; code = b - 0xc0 })
    else if b == 0xe0
    then some (record { more = 2; low = 0xa0; high = 0xbf; code = 0 })
    else if b == 0xed
    then some (record { more = 2; low = 0x80; high = 0x9f; code = 0xd })
    else if leb 0xe1 b && leb b 0xef
    then some (record { more = 2; low = 0x80; high = 0xbf; code = b - 0xe0 })
    else if b == 0xf0
    then some (record { more = 3; low = 0x90; high = 0xbf; code = 0 })
    else if b == 0xf4
    then some (record { more = 3; low = 0x80; high = 0x8f; code = 4 })
    else if leb 0xf1 b && leb b 0xf3
    then some (record { more = 3; low = 0x80; high = 0xbf; code = b - 0xf0 })
    else none

-- What one byte makes of the state, with the character that it ends.
unfoldable pub decode_byte : Pending → ℕ → Option (Pending × Option ℕ)
unfolding leading
decode_byte p b =
    if p.more == 0
    then (if ltb b 0x80
        then some (at_start, some b)
        else elim (leading b) [ none ↦ none | some q ↦ some (q, none) ])
    else if leb p.low b && leb b p.high
    then (if p.more == 1
        then some (at_start, some (p.code * 64 + (b - 0x80)))
        else some (
          record { more = p.more - 1; low = 0x80; high = 0xbf; code = p.code * 64 + (b - 0x80) },
          none,
        ))
    else none

abbrev pub with_char : Option ℕ → Option (List ℕ) → Option (List ℕ)
with_char c none = none
with_char none (some cs) = some cs
with_char (some c) (some cs) = some (c ∷ cs)

unfoldable pub decode_from : Pending → List ℕ → Option (List ℕ)
decode_from p [] = if p.more == 0 then some [] else none
decode_from p (b ∷ bs) = elim (decode_byte p b) [
  | none ↦ none
  | some (q, c) ↦ with_char c (decode_from q bs)
]

-- `String::from_utf8`.
unfoldable pub from_utf8 : List ℕ → Option (List ℕ)
unfolding decode_from
from_utf8 = decode_from at_start

-- `char::is_whitespace`.
unfoldable pub is_whitespace : ℕ → Bool
is_whitespace c =
    (leb 9 c && leb c 13)
    || c == 32
    || c == 0x85
    || c == 0xa0
    || c == 0x1680
    || (leb 0x2000 c && leb c 0x200a)
    || c == 0x2028
    || c == 0x2029
    || c == 0x202f
    || c == 0x205f
    || c == 0x3000

abbrev pub starts_line_feed : List ℕ → Bool
starts_line_feed [] = false
starts_line_feed (c ∷ cs) = c == 10

-- A character in front of the first of some pieces.
abbrev pub prepend : ℕ → List (List ℕ) → List (List ℕ)
prepend c [] = (c ∷ []) ∷ []
prepend c (l ∷ ls) = (c ∷ l) ∷ ls

-- `str::lines`: a line feed, or a carriage return before one, ends a line.
unfoldable pub lines : List ℕ → List (List ℕ)
lines [] = []
lines (c ∷ cs) =
    let rest = lines cs in
    if c == 10 then [] ∷ rest else if c == 13 && starts_line_feed cs then rest else prepend c rest

abbrev pub ends_word : List ℕ → Bool
ends_word [] = true
ends_word (c ∷ cs) = is_whitespace c

-- `str::split_whitespace`.
unfoldable pub split_whitespace : List ℕ → List (List ℕ)
unfolding is_whitespace
split_whitespace [] = []
split_whitespace (c ∷ cs) =
    let rest = split_whitespace cs in
    if is_whitespace c then rest else if ends_word cs then (c ∷ []) ∷ rest else prepend c rest

abbrev pub same_text : List ℕ → List ℕ → Bool
same_text [] [] = true
same_text [] (c ∷ cs) = false
same_text (c ∷ cs) [] = false
same_text (c ∷ cs) (d ∷ ds) = c == d && same_text cs ds

pub same_text_iff : (s t : List ℕ) → (same_text s t ≡ true) ↔ (s ≡ t)
same_text_iff [] [] = (λ e. refl, λ e. refl)
same_text_iff [] (c ∷ cs) = (λ e. cc, λ e. cc)
same_text_iff (c ∷ cs) [] = (λ e. cc, λ e. cc)
same_text_iff (c ∷ cs) (d ∷ ds) = ground (arith, same_text_iff cs ds)

abbrev pub same : Equality (List ℕ)
same = record { eq = same_text; eq_iff = same_text_iff }

abbrev pub same_option : Option (List ℕ) → Option (List ℕ) → Bool
same_option none none = true
same_option none (some t) = false
same_option (some s) none = false
same_option (some s) (some t) = same_text s t

abbrev pub starts_with : List ℕ → List ℕ → Bool
starts_with [] t = true
starts_with (c ∷ cs) [] = false
starts_with (c ∷ cs) (d ∷ ds) = c == d && starts_with cs ds

-- `str::contains`.
unfoldable pub contains : List ℕ → List ℕ → Bool
contains part [] = starts_with part []
contains part (c ∷ cs) = starts_with part (c ∷ cs) || contains part cs

-- `&s[n..]`, of ASCII.
abbrev pub skip : ℕ → List ℕ → List ℕ
skip zero s = s
skip (suc n) [] = []
skip (suc n) (c ∷ cs) = skip n cs

unfoldable pub trim_start : List ℕ → List ℕ
trim_start [] = []
trim_start (c ∷ cs) = let rest = trim_start cs in if is_whitespace c then rest else c ∷ cs

abbrev pub is_blank : List ℕ → Bool
is_blank [] = true
is_blank (c ∷ cs) = is_whitespace c && is_blank cs

unfoldable pub trim_end : List ℕ → List ℕ
trim_end [] = []
trim_end (c ∷ cs) = let rest = trim_end cs in if is_blank (c ∷ cs) then [] else c ∷ rest

-- `str::trim`.
unfoldable pub trim : List ℕ → List ℕ
unfolding trim_start trim_end
trim s = trim_end (trim_start s)

-- `skip(1)` on lines.
abbrev pub skip_line : List (List ℕ) → List (List ℕ)
skip_line [] = []
skip_line (l ∷ ls) = ls

-- `split_once(c)`: what stands before the first such character, and what after it, if there is one.
unfoldable pub split_once : ℕ → List ℕ → List ℕ × Option (List ℕ)
split_once c [] = ([], none)
split_once c (d ∷ ds) =
    let (before, after) = split_once c ds in if d == c then ([], some ds) else (d ∷ before, after)

-- `splitn(n, c)`.
unfoldable pub splitn : ℕ → ℕ → List ℕ → List (List ℕ)
unfolding split_once
splitn zero c s = []
splitn (suc zero) c s = s ∷ []
splitn (suc (suc n)) c s =
    let (before, after) = split_once c s in
    elim after [ none ↦ before ∷ [] | some rest ↦ before ∷ splitn (suc n) c rest ]

abbrev pub ascii_lower : ℕ → ℕ
ascii_lower c = if leb 65 c && leb c 90 then c + 32 else c

-- `to_ascii_lowercase`.
abbrev pub to_ascii_lowercase : List ℕ → List ℕ
to_ascii_lowercase [] = []
to_ascii_lowercase (c ∷ cs) = ascii_lower c ∷ to_ascii_lowercase cs
