-- ===== src/Base/Io.antt =====
-- The outcome of an I/O call: `io::Result`, with its errors divided as the code divides them; and
-- that of code that may panic.
use mathlib.Core.Bool.{Bool, true, false}
use mathlib.Core.Path.{◌≡◌, refl, ap, subst}
use mathlib.Core.Logic.{◌⊎◌, inl, inr}

pub data IoResult {ℓ} (A : Type ℓ) : Type ℓ where
  ok : A → IoResult A
  would_block : IoResult A
  failed : IoResult A

-- A thread that panics does not return.
pub data Outcome {ℓ} (A : Type ℓ) : Type ℓ where
  done : A → Outcome A
  panic : Outcome A

infixl 5 ◌>>=◌ ◌>>◌
abbrev pub ◌>>=◌ {ℓ κ} : {A : Type ℓ} {B : Type κ} → Outcome A → (A → Outcome B) → Outcome B
done a >>= f = f a
panic >>= f = panic

abbrev pub ◌>>◌ {ℓ} : {B : Type ℓ} → Outcome (Unit {0}) → Outcome B → Outcome B
m >> k = m >>= λ _. k

-- A bounds check of the language.
abbrev pub check : Bool → Outcome (Unit {0})
check true = done tt
check false = panic

pub Outcome-cases {ℓ} : {A : Type ℓ} (m : Outcome A) → ((a : A) × (m ≡ done a)) ⊎ (m ≡ panic)
Outcome-cases (done a) = inl (a, refl)
Outcome-cases panic = inr refl

-- What a call returned, or the answer for a call that panicked.
returned {ℓ} : {A : Type ℓ} → A → Outcome A → A
returned d (done x) = x
returned d panic = d

pub done_same {ℓ} : {A : Type ℓ} {a b : A} → ◌≡◌ {A = Outcome A} (done a) (done b) → a ≡ b
unfolding returned
done_same {a} e = ap (returned a) e

-- The predicate holds of what the call returns, if it returns.
abbrev pub OnDone {ℓ} : {A : Type ℓ} → (A → Type 0) → Outcome A → Type 0
OnDone P (done a) = P a
OnDone P panic = Unit {0}

pub OnDone_at {ℓ} :
    {A : Type ℓ} (P : A → Type 0) (m : Outcome A) (a : A) → OnDone P m → m ≡ done a → P a
OnDone_at P m a h e = subst (OnDone P) e h

pub OnDone-intro {ℓ} :
    {A : Type ℓ} (P : A → Type 0) (m : Outcome A) → ((a : A) → m ≡ done a → P a) → OnDone P m
OnDone-intro P (done a) f = f a refl
OnDone-intro P panic f = tt

pub OnDone-bind {ℓ κ} :
    {A : Type ℓ} {B : Type κ} (Q : A → Type 0) (P : B → Type 0) (m : Outcome A) (k : A → Outcome B)
    → OnDone Q m
    → ((a : A) → Q a → OnDone P (k a))
    → OnDone P (m >>= k)
OnDone-bind Q P (done a) k h f = f a h
OnDone-bind Q P panic k h f = tt

-- The same where nothing is known of the first call.
pub OnDone-then {ℓ κ} :
    {A : Type ℓ} {B : Type κ} (P : B → Type 0) (m : Outcome A) (k : A → Outcome B)
    → ((a : A) → m ≡ done a → OnDone P (k a))
    → OnDone P (m >>= k)
OnDone-then P (done a) k f = f a refl
OnDone-then P panic k f = tt
