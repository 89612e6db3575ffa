-- ===== src/Icmp/Reply.antt =====
-- The reply to an echo request.
use gnirehtet.Base.{
  ℕ, zero, suc, ◌+◌, ◌*◌, ◌/◌, ◌%◌, ◌^◌, ◌≤◌, ◌<◌, ◌≡◌, ◌∙◌, ap, refl, arith, List, [], ◌∷◌, Option,
  none, some, length, take, drop, if_intro, or_false, ltb-false, ltb, not, ◌||◌, ◌==◌, subst, set,
  length-set, length-take, length-drop, byte_at, byte_at-lt, IsBytes, set-IsBytes, take-IsBytes,
  drop-IsBytes, write_u16-IsBytes, bit_and, read_u16, write_u16, length-write_u16, u8,
}
use gnirehtet.Checksum.{checksum}
use gnirehtet.Checksum.Sums.{word_sum, word_sum-checksum}
use gnirehtet.Header.Swap.{swap_fields, swap_fields-IsBytes, length-swap_fields}
use gnirehtet.Icmp.{sealed, reply_of, build_echo_reply}

Even : ℕ → Type 0
Even zero = Unit {0}
Even (suc zero) = ¬ Unit {0}
Even (suc (suc i)) = Even i

-- A word that is written over a zero adds to the sum.
word_sum-write_u16 :
    (i v : ℕ) (bytes : List ℕ)
    → Even i
    → v < 2 ^ 16
    → i + 1 < length bytes
    → byte_at i bytes ≡ 0
    → byte_at (suc i) bytes ≡ 0
    → word_sum (write_u16 i v bytes) ≡ word_sum bytes + v
unfolding Even write_u16
word_sum-write_u16 zero v (hi ∷ lo ∷ rest) e small fits z z' = omega (arith, z, z')
word_sum-write_u16 (suc zero) v bytes e small fits z z' = absurd (e tt)
word_sum-write_u16 (suc (suc i)) v (hi ∷ lo ∷ rest) e small fits z z' =
    omega (arith, word_sum-write_u16 i v rest e small (omega arith) z z')
word_sum-write_u16 i v [] e small fits z z' = absurd (omega arith)
word_sum-write_u16 i v (hi ∷ []) e small fits z z' = absurd (omega arith)

drop-set_low : (n i v : ℕ) (xs : List ℕ) → i < n → drop n (set xs i v) ≡ drop n xs
drop-set_low zero i v xs h = absurd (omega arith)
drop-set_low (suc n) i v [] h = refl
drop-set_low (suc n) zero v (x ∷ xs) h = refl
drop-set_low (suc n) (suc i) v (x ∷ xs) h = drop-set_low n i v xs (omega arith)

drop-set : (n i j v : ℕ) (xs : List ℕ) → j ≡ n + i → drop n (set xs j v) ≡ set (drop n xs) i v
drop-set zero i j v xs e = ap (λ k. set xs k v) (omega (arith, e))
drop-set (suc n) i j v [] e = refl
drop-set (suc n) i zero v (x ∷ xs) e = absurd (omega (arith, e))
drop-set (suc n) i (suc j) v (x ∷ xs) e = drop-set n i j v xs (omega (arith, e))

take-set : (n i v : ℕ) (xs : List ℕ) → take n (set xs i v) ≡ set (take n xs) i v
take-set zero i v xs = refl
take-set (suc n) i v [] = refl
take-set (suc n) zero v (x ∷ xs) = refl
take-set (suc n) (suc i) v (x ∷ xs) = ap (◌∷◌ x) (take-set n i v xs)

drop-write_u16 :
    (n i j v : ℕ) (xs : List ℕ) → j ≡ n + i → drop n (write_u16 j v xs) ≡ write_u16 i v (drop n xs)
unfolding write_u16
drop-write_u16 n i j v xs e =
    drop-set n (suc i) (suc j) (u8 v) _ (omega (arith, e))
    ∙ ap (λ t. set t (suc i) (u8 v)) (drop-set n i j (u8 (v / 256)) xs e)

take-write_u16 : (n i v : ℕ) (xs : List ℕ) → take n (write_u16 i v xs) ≡ write_u16 i v (take n xs)
unfolding write_u16
take-write_u16 n i v xs =
    take-set n (suc i) (u8 v) _ ∙ ap (λ t. set t (suc i) (u8 v)) (take-set n i (u8 (v / 256)) xs)

-- The bytes with zeros for the checksum.
abbrev zeroed : ℕ → ℕ → List ℕ → List ℕ
zeroed i j xs = set (set xs i 0) j 0

zeroed-zero :
    (i : ℕ) (xs : List ℕ)
    → i + 1 < length xs
    → (byte_at i (zeroed i (suc i) xs) ≡ 0) × (byte_at (suc i) (zeroed i (suc i) xs) ≡ 0)
zeroed-zero zero (x ∷ y ∷ xs) h = (refl, refl)
zeroed-zero (suc i) (x ∷ xs) h = zeroed-zero i xs (omega arith)
zeroed-zero i [] h = absurd (omega arith)
zeroed-zero zero (x ∷ []) h = absurd (omega arith)

-- With its checksum in place of the zeros the sum of the words is a multiple of 2 ^ 16 - 1.
sealed-word_sum :
    (i : ℕ) (xs : List ℕ)
    → Even i
    → i + 1 < length xs
    → length xs < 2 ^ 16
    → IsBytes xs
    → let z = zeroed i (suc i) xs in word_sum (write_u16 i (checksum z) z) % 0xffff ≡ 0
sealed-word_sum i xs e fits few h =
    let z = zeroed i (suc i) xs in
    let n : length z ≡ length xs = length-set (set xs i 0) (suc i) 0 ∙ length-set xs i 0 in
    let zeros = zeroed-zero i xs fits in
    let bytes = set-IsBytes _ (suc i) 0 (omega arith) (set-IsBytes xs i 0 (omega arith) h) in
    let small : checksum z < 2 ^ 16 = unfold checksum in omega arith in
    omega (
      arith,
      word_sum-checksum z bytes (omega (arith, n)),
      word_sum-write_u16 i (checksum z) z e small (omega (arith, n)) zeros.0 zeros.1,
    )

module _ (ihl : ℕ) (raw : List ℕ) (long : 20 ≤ ihl) (fits : ihl + 8 ≤ length raw)
    (few : length raw < 2 ^ 16) (bytes : IsBytes raw) where
  abbrev typed : List ℕ
  typed = set (swap_fields 4 12 4 raw) ihl 0

  abbrev inner : List ℕ
  inner = sealed (ihl + 2) (drop ihl) typed

  length-typed : length typed ≡ length raw
  length-typed = length-set (swap_fields 4 12 4 raw) ihl 0 ∙ length-swap_fields 4 12 4 raw

  typed-IsBytes : IsBytes typed
  typed-IsBytes = set-IsBytes _ ihl 0 (omega arith) (swap_fields-IsBytes 4 12 4 raw bytes)

  length-inner : length inner ≡ length raw
  unfolding sealed
  length-inner =
      length-write_u16 (ihl + 2) _ _
      ∙ length-set _ (ihl + 2 + 1) 0
      ∙ length-set typed (ihl + 2) 0
      ∙ length-typed

  inner-IsBytes : IsBytes inner
  unfolding sealed
  inner-IsBytes = write_u16-IsBytes (ihl + 2) _ _ (
      set-IsBytes _ (ihl + 2 + 1) 0 (omega arith)
        (set-IsBytes typed (ihl + 2) 0 (omega arith) typed-IsBytes))

  drop-inner : drop ihl inner ≡ (let z = zeroed 2 3 (drop ihl typed) in write_u16 2 (checksum z) z)
  unfolding sealed
  drop-inner =
      let z : drop ihl (zeroed (ihl + 2) (ihl + 2 + 1) typed) ≡ zeroed 2 3 (drop ihl typed) =
        drop-set ihl 3 (ihl + 2 + 1) 0 _ (omega arith)
        ∙ ap (λ t. set t 3 0) (drop-set ihl 2 (ihl + 2) 0 typed refl) in
      drop-write_u16 ihl 2 (ihl + 2) _ _ refl ∙ ap (λ t. write_u16 2 (checksum t) t) z

  drop-reply_of : drop ihl (reply_of ihl raw) ≡ drop ihl inner
  unfolding reply_of write_u16
  drop-reply_of =
      drop-set_low ihl 11 _ _ (omega arith)
      ∙ drop-set_low ihl 10 _ _ (omega arith)
      ∙ drop-set_low ihl 11 _ _ (omega arith)
      ∙ drop-set_low ihl 10 _ inner (omega arith)

  take-reply_of :
      take ihl (reply_of ihl raw)
      ≡ (let z = zeroed 10 11 (take ihl inner) in write_u16 10 (checksum z) z)
  unfolding reply_of
  take-reply_of =
      let z : take ihl (zeroed 10 11 inner) ≡ zeroed 10 11 (take ihl inner) =
        take-set ihl 11 0 _ ∙ ap (λ t. set t 11 0) (take-set ihl 10 0 inner) in
      take-write_u16 ihl 10 _ _ ∙ ap (λ t. write_u16 10 (checksum t) t) z

  length-reply_of : length (reply_of ihl raw) ≡ length raw
  unfolding reply_of
  length-reply_of =
      length-write_u16 10 _ _ ∙ length-set _ 11 0 ∙ length-set inner 10 0 ∙ length-inner

  icmp-word_sum : word_sum (drop ihl (reply_of ihl raw)) % 0xffff ≡ 0
  unfolding Even
  icmp-word_sum =
      rw (drop-reply_of, drop-inner)
        (sealed-word_sum 2 (drop ihl typed) tt (omega (arith, length-drop ihl typed, length-typed))
          (omega (arith, length-drop ihl typed, length-typed))
          (drop-IsBytes ihl typed typed-IsBytes))

  ip-word_sum : word_sum (take ihl (reply_of ihl raw)) % 0xffff ≡ 0
  unfolding Even
  ip-word_sum = rw take-reply_of (
      sealed-word_sum 10 (take ihl inner) tt (omega (arith, length-take ihl inner, length-inner))
        (omega (arith, length-take ihl inner, length-inner)) (take-IsBytes ihl inner inner-IsBytes))

-- The header length that the first byte of a packet states.
abbrev stated_header_length : List ℕ → ℕ
stated_header_length raw = bit_and (byte_at 0 raw) 0xf * 4

-- The reply has the length that the request states, and its checksums are right.
abbrev Answers : List ℕ → List ℕ → Type 0
Answers request reply =
    (length reply ≡ read_u16 2 request)
    × (word_sum (take (stated_header_length request) reply) % 0xffff ≡ 0)
    × (word_sum (drop (stated_header_length request) reply) % 0xffff ≡ 0)

-- Whatever is returned answers the request.
abbrev AnswersSome : List ℕ → Option (List ℕ) → Type 0
AnswersSome request none = Unit {0}
AnswersSome request (some reply) = Answers request reply

reply_of-Answers :
    (request : List ℕ)
    → IsBytes request
    → 20 ≤ stated_header_length request
    → read_u16 2 request ≤ length request
    → stated_header_length request + 8 ≤ read_u16 2 request
    → Answers request (reply_of (stated_header_length request) (take (read_u16 2 request) request))
reply_of-Answers request bytes long fits room =
    let ihl = stated_header_length request in
    let raw = take (read_u16 2 request) request in
    let n : length raw ≡ read_u16 2 request =
      omega (arith, length-take (read_u16 2 request) request) in
    let small : length raw < 2 ^ 16 =
      unfold read_u16 in omega (arith, n, byte_at-lt 2 request bytes, byte_at-lt 3 request bytes) in
    let enough : ihl + 8 ≤ length raw = omega (arith, n) in
    let b = take-IsBytes (read_u16 2 request) request bytes in
    (
      length-reply_of ihl raw long enough small b ∙ n,
      ip-word_sum ihl raw long enough small b,
      icmp-word_sum ihl raw long enough small b,
    )

build_echo_reply-AnswersSome :
    (request : List ℕ) → IsBytes request → AnswersSome request (build_echo_reply request)
unfolding build_echo_reply
build_echo_reply-AnswersSome request bytes =
    let P = AnswersSome request in
    let ihl = stated_header_length request in
    let total = read_u16 2 request in
    if_intro P (ltb (length request) 28) _ _ (λ _. tt)
      (λ _.
        if_intro P (not (byte_at 0 request / 2 ^ 4 == 4)) _ _ (λ _. tt)
          (λ _.
            if_intro P (ltb ihl 20 || ltb (length request) (ihl + 8)) _ _ (λ _. tt)
              (λ h.
                if_intro P (not (byte_at 9 request == 1) || not (byte_at ihl request == 8)) _ _
                  (λ _. tt)
                  (λ _.
                    if_intro P (ltb (length request) total || ltb total (ihl + 8)) _ _ (λ _. tt)
                      (λ h'.
                        reply_of-Answers request bytes (ltb-false ihl 20 (or_false _ _ h).0)
                          (ltb-false (length request) total (or_false _ _ h').0)
                          (ltb-false total (ihl + 8) (or_false _ _ h').1))))))

-- A reply to a request of bytes has the length that the request states, and in its IP header and in its ICMP part
-- the words add up to a multiple of 2 ^ 16 - 1, so that a receiver accepts both checksums.
pub build_echo_reply-word_sum :
    (request reply : List ℕ)
    → IsBytes request
    → build_echo_reply request ≡ some reply
    → (length reply ≡ read_u16 2 request)
      × (word_sum (take (stated_header_length request) reply) % 0xffff ≡ 0)
      × (word_sum (drop (stated_header_length request) reply) % 0xffff ≡ 0)
build_echo_reply-word_sum request reply bytes e =
    subst (AnswersSome request) e (build_echo_reply-AnswersSome request bytes)
