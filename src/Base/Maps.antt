-- ===== src/Base/Maps.antt =====
-- Maps with unique keys as lists of entries. `HashMap` is one: what depends on the order of the entries is
-- stated for every order.
use gnirehtet.Base.Tests.{if◌then◌else◌, if_intro, Bool-cases}
use mathlib.Core.Path.{◌≡◌, ◌∙◌, refl, sym, subst}
use native.Mathlib.Omega.{arith}
use mathlib.Core.Bool.{Bool, true, false, not, ◌&&◌}
use mathlib.Core.Option.{Option, none, some}
use mathlib.Core.List.{List, [], ◌∷◌}
use mathlib.Core.Logic.{◌↔◌, inl, inr}

-- A test that decides equality.
pub record Equality {ℓ} (K : Type ℓ) : Type ℓ where
  pub eq : K → K → Bool
  pub eq_iff : (a b : K) → (eq a b ≡ true) ↔ (a ≡ b)

module _ {ℓ κ} {K : Type ℓ} {V : Type κ} where
  -- `HashMap::retain`.
  abbrev pub retain : (K × V → Bool) → List (K × V) → List (K × V)
  retain p [] = []
  retain p (e ∷ m) = let rest = retain p m in if p e then e ∷ rest else rest

  -- Every entry satisfies the predicate.
  abbrev pub Every : (K → V → Type 0) → List (K × V) → Type 0
  Every P [] = Unit {0}
  Every P (e ∷ m) = P e.0 e.1 × Every P m

  pub Every-retain :
      (P : K → V → Type 0) (p : K × V → Bool) (m : List (K × V)) → Every P m → Every P (retain p m)
  Every-retain P p [] h = tt
  Every-retain P p (e ∷ m) h = elim (Bool-cases (p e)) [
    | inl q ↦ rw q (h.0, Every-retain P p m h.1)
    | inr q ↦ rw q (Every-retain P p m h.1)
  ]

  pub retain_all :
      (p : K × V → Bool) (m : List (K × V)) → ((e : K × V) → p e ≡ true) → retain p m ≡ m
  retain_all p [] h = refl
  retain_all p (e ∷ m) h = rw (h e, retain_all p m h) refl

  -- Tests that agree on the entries keep the same.
  pub retain_ext :
      (p q : K × V → Bool) (m : List (K × V))
      → Every (λ k v. p (k, v) ≡ q (k, v)) m
      → retain p m ≡ retain q m
  retain_ext p q [] h = refl
  retain_ext p q (e ∷ m) h = rw (h.0, retain_ext p q m h.1) refl

  pub retain-retain :
      (p q : K × V → Bool) (m : List (K × V)) → retain p (retain q m) ≡ retain (λ e. q e && p e) m
  retain-retain p q [] = refl
  retain-retain p q (e ∷ m) = elim (Bool-cases (q e)) [
    | inl t ↦ rw (t, retain-retain p q m) refl
    | inr t ↦ rw (t, retain-retain p q m) refl
  ]

  pub Every-all : (P : K → V → Type 0) (m : List (K × V)) → ((k : K) (v : V) → P k v) → Every P m
  Every-all P [] f = tt
  Every-all P (e ∷ m) f = (f e.0 e.1, Every-all P m f)

  pub Every-implies :
      (P Q : K → V → Type 0) (m : List (K × V))
      → ((k : K) (v : V) → P k v → Q k v)
      → Every P m
      → Every Q m
  Every-implies P Q [] f h = tt
  Every-implies P Q (e ∷ m) f h = (f e.0 e.1 h.0, Every-implies P Q m f h.1)

  pub Every-both :
      (P Q : K → V → Type 0) (m : List (K × V))
      → Every P m
      → Every Q m
      → Every (λ k v. P k v × Q k v) m
  Every-both P Q [] h h' = tt
  Every-both P Q (e ∷ m) h h' = ((h.0, h'.0), Every-both P Q m h.1 h'.1)

  -- What `retain` keeps satisfies its test.
  pub Every-retain_test :
      (p : K × V → Bool) (m : List (K × V)) → Every (λ k v. p (k, v) ≡ true) (retain p m)
  Every-retain_test p [] = tt
  Every-retain_test p (e ∷ m) = elim (Bool-cases (p e)) [
    | inl q ↦ rw q (q, Every-retain_test p m)
    | inr q ↦ rw q (Every-retain_test p m)
  ]

pub eq_comm {ℓ} :
    {K : Type ℓ} (same : Equality K) (a b : K) → same.eq a b ≡ false → same.eq b a ≡ false
eq_comm same a b e = elim (Bool-cases (same.eq b a)) [
  | inl q ↦ absurd (cc (e, (same.eq_iff a b).1 (sym ((same.eq_iff b a).0 q))))
  | inr q ↦ q
]

module _ {ℓ κ} {K : Type ℓ} {V : Type κ} (same : Equality K) where
  abbrev pub get : K → List (K × V) → Option V
  get k [] = none
  get k (e ∷ m) = let rest = get k m in if same.eq k e.0 then some e.1 else rest

  abbrev pub contains_key : K → List (K × V) → Bool
  contains_key k [] = false
  contains_key k (e ∷ m) = let rest = contains_key k m in if same.eq k e.0 then true else rest

  abbrev pub remove : K → List (K × V) → List (K × V)
  remove k = retain (λ e. not (same.eq k e.0))

  abbrev pub insert : K → V → List (K × V) → List (K × V)
  insert k v m = (k, v) ∷ remove k m

  abbrev pub Unique : List (K × V) → Type 0
  Unique [] = Unit {0}
  Unique (e ∷ m) = (contains_key e.0 m ≡ false) × Unique m

  pub contains_key-retain :
      (k : K) (p : K × V → Bool) (m : List (K × V))
      → contains_key k m ≡ false
      → contains_key k (retain p m) ≡ false
  contains_key-retain k p [] h = refl
  contains_key-retain k p (e ∷ m) h = ground (arith, contains_key-retain k p m)

  pub contains_key-remove_self : (k : K) (m : List (K × V)) → contains_key k (remove k m) ≡ false
  contains_key-remove_self k [] = refl
  contains_key-remove_self k (e ∷ m) = ground (arith, contains_key-remove_self k m)

  pub Unique-retain : (p : K × V → Bool) (m : List (K × V)) → Unique m → Unique (retain p m)
  Unique-retain p [] u = tt
  Unique-retain p (e ∷ m) u = elim (Bool-cases (p e)) [
    | inl t ↦ rw t (contains_key-retain e.0 p m u.0, Unique-retain p m u.1)
    | inr t ↦ rw t (Unique-retain p m u.1)
  ]

  pub Unique-insert : (k : K) (v : V) (m : List (K × V)) → Unique m → Unique (insert k v m)
  Unique-insert k v m u = (contains_key-remove_self k m, Unique-retain _ m u)

  -- An entry under another key is not touched by a removal.
  pub get-remove_ne :
      (k k' : K) (m : List (K × V)) → same.eq k k' ≡ false → get k (remove k' m) ≡ get k m
  get-remove_ne k k' [] d = refl
  get-remove_ne k k' (e ∷ m) d = elim (Bool-cases (same.eq k' e.0)) [
    | inl q ↦
        let other : same.eq k e.0 ≡ false =
          subst (λ x. same.eq k x ≡ false) ((same.eq_iff k' e.0).0 q) d in
        rw (q, other) (get-remove_ne k k' m d)
    | inr q ↦ rw q (ground (arith, get-remove_ne k k' m d))
  ]

  -- No entry has a key that the map does not contain.
  pub Every-apart :
      (k : K) (m : List (K × V)) → contains_key k m ≡ false → Every (λ k' v. same.eq k k' ≡ false) m
  Every-apart k [] h = tt
  Every-apart k (e ∷ m) h = elim (Bool-cases (same.eq k e.0)) [
    | inl q ↦ absurd (cc (rw q at h))
    | inr q ↦ (q, Every-apart k m (rw q at h))
  ]

  -- A key whose entry satisfies the test stays.
  pub get_contains :
      (k : K) (v : V) (p : K × V → Bool) (m : List (K × V))
      → get k m ≡ some v
      → ((k' : K) → p (k', v) ≡ true)
      → contains_key k (retain p m) ≡ true
  get_contains k v p [] h t = absurd (cc h)
  get_contains k v p (e ∷ m) h t = elim (Bool-cases (same.eq k e.0)) [
    | inl q ↦
        let same_value : e.1 ≡ v = cc (rw q at h) in
        let keeps : p e ≡ true = rw same_value (t e.0) in rw (keeps, q) refl
    | inr q ↦
        let rest = get_contains k v p m (rw q at h) t in
        if_intro (λ x. contains_key k x ≡ true) (p e) (e ∷ retain p m) (retain p m) (λ _. rw q rest)
          (λ _. rest)
  ]

  -- Maps with the same keys in the same order.
  abbrev pub SameKeys : List (K × V) → List (K × V) → Type ℓ
  SameKeys [] [] = Unit {ℓ}
  SameKeys [] (e ∷ m) = ¬ Unit {ℓ}
  SameKeys (e ∷ m) [] = ¬ Unit {ℓ}
  SameKeys (e ∷ m) (e' ∷ m') = (e'.0 ≡ e.0) × SameKeys m m'

  pub contains_key-SameKeys :
      (k : K) (m m' : List (K × V)) → SameKeys m m' → contains_key k m' ≡ contains_key k m
  contains_key-SameKeys k [] [] s = refl
  contains_key-SameKeys k [] (e ∷ m) s = absurd (s tt)
  contains_key-SameKeys k (e ∷ m) [] s = absurd (s tt)
  contains_key-SameKeys k (e ∷ m) (e' ∷ m') s = rw (s.0, contains_key-SameKeys k m m' s.1) refl

  pub Unique-SameKeys : (m m' : List (K × V)) → SameKeys m m' → Unique m → Unique m'
  Unique-SameKeys [] [] s u = u
  Unique-SameKeys [] (e ∷ m) s u = absurd (s tt)
  Unique-SameKeys (e ∷ m) [] s u = absurd (s tt)
  Unique-SameKeys (e ∷ m) (e' ∷ m') s u =
      (rw s.0 (contains_key-SameKeys e.0 m m' s.1 ∙ u.0), Unique-SameKeys m m' s.1 u.1)

  pub Every-SameKeys :
      (P : K → Type 0) (m m' : List (K × V))
      → SameKeys m m'
      → Every (λ k v. P k) m
      → Every (λ k v. P k) m'
  Every-SameKeys P [] [] s h = h
  Every-SameKeys P [] (e ∷ m) s h = absurd (s tt)
  Every-SameKeys P (e ∷ m) [] s h = absurd (s tt)
  Every-SameKeys P (e ∷ m) (e' ∷ m') s h = (rw s.0 h.0, Every-SameKeys P m m' s.1 h.1)
