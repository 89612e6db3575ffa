-- ===== src/Connection/Identity.antt =====
-- Two ids are equal when their fields are.
use gnirehtet.Base.{◌≡◌, ◌↔◌, refl, Bool, true, false, ℕ_discrete, Equality}
use gnirehtet.Connection.{ConnectionId}

unfoldable pub ConnectionId-discrete : Discrete ConnectionId
ConnectionId-discrete = hlevel ℕ_discrete

unfoldable pub is_yes {ℓ} : {P : Type ℓ} → Dec P → Bool
is_yes (yes p) = true
is_yes (no p) = false

pub is_yes_iff {ℓ} : {P : Type ℓ} (d : Dec P) → (is_yes d ≡ true) ↔ P
unfolding is_yes
is_yes_iff (yes p) = (λ _. p, λ _. refl)
is_yes_iff (no p) = (λ e. absurd (cc e), λ q. absurd (p q))

-- The derived `PartialEq`.
unfoldable pub same_id : Equality ConnectionId
unfolding ConnectionId-discrete is_yes
same_id = record {
  eq = λ a b. is_yes (ConnectionId-discrete a b);
  eq_iff = λ a b. is_yes_iff (ConnectionId-discrete a b);
}
