-- ===== src/Router/Expiry.antt =====
-- What the periodic cleaning removes.
use gnirehtet.Base.{
  eq_comm, ℕ, ◌≡◌, refl, sym, ◌∙◌, false, not, ◌&&◌, Bool-cases, inl, inr, List, [], ◌∷◌, if_intro,
  contains_key, Unique, Every, Every-all, Every-apart, Every-implies, Every-both, retain,
  retain_all, retain_ext, retain-retain,
}
use gnirehtet.Connection.{ConnectionId, Connection}
use gnirehtet.Connection.Identity.{same_id}
use gnirehtet.Router.{Router, evict, evict_all, expired_ids, clean_expired_connections}
use gnirehtet.Router.Keys.{IsValid}
use gnirehtet.Router.Closing.{listed}

listed_step :
    (id k : ConnectionId) (ids : List ConnectionId)
    → (not (same_id.eq id k) && not (listed k ids)) ≡ not (listed k (id ∷ ids))
listed_step id k ids = elim (Bool-cases (same_id.eq id k)) [
  | inl q ↦ rw (q, (same_id.eq_iff k id).1 (sym ((same_id.eq_iff id k).0 q))) refl
  | inr q ↦ rw (q, eq_comm same_id id k q) refl
]

-- Evicting all listed ids keeps exactly what is not listed.
evict_all-retain :
    {C : Type 0} (clock : ConnectionId → ℕ) (ids : List ConnectionId) (r : Router C)
    → (evict_all clock ids r).connections ≡ retain (λ e. not (listed e.0 ids)) r.connections
unfolding evict_all evict
evict_all-retain clock [] r = sym (retain_all _ r.connections (λ e. refl))
evict_all-retain clock (id ∷ ids) r =
    evict_all-retain clock ids (evict (clock id) id r)
    ∙ retain-retain _ _ r.connections
    ∙ retain_ext _ _ r.connections (Every-all _ r.connections (λ k c. listed_step id k ids))

module _ {A C : Type 0} (ops : Connection A C) (now : ℕ) where
  listed-expired_ids :
      (k : ConnectionId) (m : List (ConnectionId × C))
      → contains_key same_id k m ≡ false
      → listed k (expired_ids ops now m) ≡ false
  unfolding expired_ids
  listed-expired_ids k [] h = refl
  listed-expired_ids k (e ∷ m) h = elim (Bool-cases (same_id.eq k e.0)) [
    | inl q ↦ absurd (cc (rw q at h))
    | inr q ↦
        let rest = listed-expired_ids k m (rw q at h) in
        if_intro (λ ids. listed k ids ≡ false) (ops.is_expired now e.1) _ _ (λ _. rw q rest)
          (λ _. rest)
  ]

  first_exact :
      (e : ConnectionId × C) (m : List (ConnectionId × C))
      → contains_key same_id e.0 m ≡ false
      → listed e.0 (expired_ids ops now (e ∷ m)) ≡ ops.is_expired now e.1
  unfolding expired_ids
  first_exact e m apart = elim (Bool-cases (ops.is_expired now e.1)) [
    | inl q ↦ rw (q, (same_id.eq_iff e.0 e.0).1 refl) refl
    | inr q ↦ rw q (listed-expired_ids e.0 m apart)
  ]

  -- In a map with unique keys, an id is listed when its own connection is expired.
  expired_ids-exact :
      (m : List (ConnectionId × C))
      → Unique same_id m
      → Every (λ k c. listed k (expired_ids ops now m) ≡ ops.is_expired now c) m
  unfolding expired_ids
  expired_ids-exact [] u = tt
  expired_ids-exact (e ∷ m) u =
      let tail = Every-both _ _ m (expired_ids-exact m u.1) (Every-apart same_id e.0 m u.0) in
      (
        first_exact e m u.0,
        Every-implies _ _ m
            (λ k c h.
              if_intro (λ ids. listed k ids ≡ ops.is_expired now c) (ops.is_expired now e.1) _ _
                (λ _. rw (eq_comm same_id e.0 k h.1) h.0) (λ _. h.0))
            tail,
      )

  -- In a valid router the cleaning keeps exactly the connections that are not expired, in their order.
  pub clean_expired_connections-retain :
      (clock : ConnectionId → ℕ) (r : Router C)
      → IsValid r
      → (clean_expired_connections ops now clock r).connections
        ≡ retain (λ e. not (ops.is_expired now e.1)) r.connections
  unfolding clean_expired_connections
  clean_expired_connections-retain clock r v =
      evict_all-retain clock (expired_ids ops now r.connections) r
      ∙ retain_ext _ _ r.connections (
          Every-implies _ _ r.connections (λ k c e. rw e refl)
            (expired_ids-exact r.connections v.unique))
