-- ===== src/Text/Lines.antt =====
-- Lines and words of texts that are put together from them.
use gnirehtet.Base.{
  ℕ, ◌≡◌, refl, ap, ◌∙◌, arith, true, false, List, [], ◌∷◌, ◌++◌, ◌==◌, ◌≢◌, ltb, Option, some,
}
use gnirehtet.Text.{
  is_whitespace, lines, split_whitespace, prepend, ends_word, from_utf8, decode_from, decode_byte,
  at_start, Pending, with_char,
}

-- A line's characters are neither line feeds nor carriage returns.
abbrev pub IsLine : List ℕ → Type 0
IsLine [] = Unit {0}
IsLine (c ∷ cs) = ((c == 10) ≡ false) × ((c == 13) ≡ false) × IsLine cs

abbrev pub IsWordTail : List ℕ → Type 0
IsWordTail [] = Unit {0}
IsWordTail (c ∷ cs) = (is_whitespace c ≡ false) × IsWordTail cs

abbrev pub IsWord : List ℕ → Type 0
IsWord w = (w ≢ []) × IsWordTail w

abbrev pub IsAscii : List ℕ → Type 0
IsAscii [] = Unit {0}
IsAscii (c ∷ cs) = (ltb c 0x80 ≡ true) × IsAscii cs

pub lines-append : (l rest : List ℕ) → IsLine l → lines (l ++ (10 ∷ rest)) ≡ l ∷ lines rest
unfolding lines
lines-append [] rest h = refl
lines-append (c ∷ cs) rest (feed, return, h) = rw (feed, return, lines-append cs rest h) refl

word_goes_on :
    (c : ℕ) (cs : List ℕ)
    → is_whitespace c ≡ false
    → ends_word cs ≡ false
    → split_whitespace (c ∷ cs) ≡ prepend c (split_whitespace cs)
unfolding split_whitespace
word_goes_on c cs e e' = rw (e, e') refl

word_ends :
    (c : ℕ) (cs : List ℕ)
    → is_whitespace c ≡ false
    → ends_word cs ≡ true
    → split_whitespace (c ∷ cs) ≡ (c ∷ []) ∷ split_whitespace cs
unfolding split_whitespace
word_ends c cs e e' = rw (e, e') refl

skips :
    (c : ℕ) (cs : List ℕ) → is_whitespace c ≡ true → split_whitespace (c ∷ cs) ≡ split_whitespace cs
unfolding split_whitespace
skips c cs e = rw e refl

word_then :
    (c : ℕ) (cs : List ℕ) (w : ℕ) (rest : List ℕ)
    → IsWordTail (c ∷ cs)
    → is_whitespace w ≡ true
    → split_whitespace (c ∷ (cs ++ (w ∷ rest))) ≡ (c ∷ cs) ∷ split_whitespace rest
word_then c [] w rest h white =
    word_ends c (w ∷ rest) h.0 white ∙ ap (◌∷◌ (c ∷ [])) (skips w rest white)
word_then c (d ∷ ds) w rest h white =
    word_goes_on c (d ∷ (ds ++ (w ∷ rest))) h.0 h.1.0
    ∙ ap (prepend c) (word_then d ds w rest h.1 white)

pub split_whitespace-append :
    (s : List ℕ) (w : ℕ) (rest : List ℕ)
    → IsWord s
    → is_whitespace w ≡ true
    → split_whitespace (s ++ (w ∷ rest)) ≡ s ∷ split_whitespace rest
split_whitespace-append [] w rest h white = absurd (h.0 refl)
split_whitespace-append (c ∷ cs) w rest h white = word_then c cs w rest h.1 white

last_word : (c : ℕ) (cs : List ℕ) → IsWordTail (c ∷ cs) → split_whitespace (c ∷ cs) ≡ (c ∷ cs) ∷ []
last_word c [] h = word_ends c [] h.0 refl ∙ ap (◌∷◌ (c ∷ [])) (unfold split_whitespace in refl)
last_word c (d ∷ ds) h = word_goes_on c (d ∷ ds) h.0 h.1.0 ∙ ap (prepend c) (last_word d ds h.1)

pub split_whitespace_word : (s : List ℕ) → IsWord s → split_whitespace s ≡ s ∷ []
split_whitespace_word [] h = absurd (h.0 refl)
split_whitespace_word (c ∷ cs) h = last_word c cs h.1

pub IsLine-word : (s : List ℕ) → IsWordTail s → IsLine s
unfolding is_whitespace
IsLine-word [] h = tt
IsLine-word (c ∷ cs) h = (ground (arith, h.0), ground (arith, h.0), IsLine-word cs h.1)

pub IsLine-append : (l l' : List ℕ) → IsLine l → IsLine l' → IsLine (l ++ l')
IsLine-append [] l' h h' = h'
IsLine-append (c ∷ cs) l' h h' = (h.0, h.1, IsLine-append cs l' h.2 h')

decode_more :
    (p q : Pending) (b : ℕ) (c : Option ℕ) (bs : List ℕ)
    → decode_byte p b ≡ some (q, c)
    → decode_from p (b ∷ bs) ≡ with_char c (decode_from q bs)
unfolding decode_from
decode_more p q b c bs e = rw (e, decode_from) refl

decode_ascii : (s : List ℕ) → IsAscii s → decode_from at_start s ≡ some s
decode_ascii [] h = unfold decode_from in refl
decode_ascii (c ∷ cs) h =
    decode_more at_start at_start c (some c) cs (unfold decode_byte in rw h.0 refl)
    ∙ ap (with_char (some c)) (decode_ascii cs h.1)

-- ASCII bytes are their own characters.
pub from_utf8_ascii : (s : List ℕ) → IsAscii s → from_utf8 s ≡ some s
unfolding from_utf8
from_utf8_ascii s h = decode_ascii s h
