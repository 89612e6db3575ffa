-- ===== src/Router/Closing.antt =====
-- Which connections the two sweeps leave.
use gnirehtet.Base.{
  eq_comm, ℕ, ◌≡◌, ◌⊎◌, refl, Bool, true, false, not, ◌||◌, Bool-cases, inl, inr, List, [], ◌∷◌,
  if◌then◌else◌, Every, Every-retain, Every-retain_test, Every-implies, Every-both, IoResult, ok,
  would_block, failed, done, OnDone, OnDone-bind, OnDone-intro, OnDone_at, arith,
}
use gnirehtet.SharedBuffer.{SharedBuffer}
use gnirehtet.Connection.{ConnectionId, Connection}
use gnirehtet.Connection.Identity.{same_id}
use gnirehtet.Router.{Router, evict, evict_all, after_poll, poll_all, poll_connections}

-- An id is on the list.
abbrev pub listed : ConnectionId → List ConnectionId → Bool
listed k [] = false
listed k (id ∷ ids) = same_id.eq k id || listed k ids

module _ {C : Type 0} (P : C → Type 0) where
  -- Listed, or with a connection that satisfies the predicate.
  abbrev Listed : List ConnectionId → ConnectionId → C → Type 0
  Listed ids k c = (listed k ids ≡ true) ⊎ P c

  Listed-more :
      (gone : Bool) (id : ConnectionId) (ids : List ConnectionId) (k : ConnectionId) (c : C)
      → Listed ids k c
      → Listed (if gone then id ∷ ids else ids) k c
  Listed-more true id ids k c (inl e) = inl (ground (arith, e))
  Listed-more false id ids k c (inl e) = inl e
  Listed-more _ id ids k c (inr p) = inr p

  Listed-self :
      (gone : Bool) (id : ConnectionId) (ids : List ConnectionId) (c : C)
      → (gone ≡ true) ⊎ P c
      → Listed (if gone then id ∷ ids else ids) id c
  Listed-self true id ids c h = inl (rw ((same_id.eq_iff id id).1 refl) refl)
  Listed-self false id ids c (inl e) = absurd (cc e)
  Listed-self false id ids c (inr p) = inr p

  Listed-less :
      (id : ConnectionId) (ids : List ConnectionId) (k : ConnectionId) (c : C)
      → not (same_id.eq id k) ≡ true
      → Listed (id ∷ ids) k c
      → Listed ids k c
  Listed-less id ids k c differ (inl e) =
      let other = eq_comm same_id id k (ground arith) in inl (ground (arith, e, other))
  Listed-less id ids k c differ (inr p) = inr p

  -- Evicting all listed ids leaves only what is not listed.
  evict_all-Every :
      (clock : ConnectionId → ℕ) (ids : List ConnectionId) (r : Router C)
      → Every (Listed ids) r.connections
      → Every (λ k c. P c) (evict_all clock ids r).connections
  unfolding evict_all evict
  evict_all-Every clock [] r h =
      Every-implies _ _ r.connections (λ k c. elim [ inl e ↦ absurd (cc e) | inr p ↦ p ]) h
  evict_all-Every clock (id ∷ ids) r h = evict_all-Every clock ids (evict (clock id) id r) (
      Every-implies _ _ _ (λ k c x. Listed-less id ids k c x.0 x.1)
        (Every-both _ _ _ (Every-retain_test _ r.connections) (Every-retain _ _ r.connections h)))

-- What a poll leaves of a connection in the router satisfies the predicate, or the connection goes.
abbrev pub Remains :
    {A C : Type 0} → Connection A C → (C → Type 0) → SharedBuffer × C × IoResult (Unit {0}) → Type 0
Remains ops P p = ((after_poll ops (p.1, p.2)).1 ≡ true) ⊎ P (after_poll ops (p.1, p.2)).0

module _ {A C : Type 0} (ops : Connection A C) (P : C → Type 0) (answers : ConnectionId → A)
    (step : (id : ConnectionId) (b : SharedBuffer) (c : C)
      → OnDone (Remains ops P) (ops.poll (answers id) b c)) where
  poll_all-Listed :
      (b : SharedBuffer) (es : List (ConnectionId × C))
      → OnDone (λ s. Every (Listed P s.2) s.1) (poll_all ops answers b es)
  unfolding poll_all
  poll_all-Listed b [] = tt
  poll_all-Listed b (x ∷ es) =
      OnDone-bind _ _ (ops.poll (answers x.0) b x.1) _ (step x.0 b x.1) (λ p left.
        OnDone-bind _ _ (poll_all ops answers p.0 es) _ (poll_all-Listed p.0 es) (λ rest h.
          let gone = (after_poll ops (p.1, p.2)).1 in
          (
            Listed-self P gone x.0 rest.2 _ left,
            Every-implies _ _ rest.1 (Listed-more P gone x.0 rest.2) h,
          )))

  -- A poll that returns leaves only connections that satisfy the predicate.
  pub poll_connections-Every :
      (clock : ConnectionId → ℕ) (b : SharedBuffer) (r : Router C) (s : SharedBuffer × Router C)
      → poll_connections ops answers clock b r ≡ done s
      → Every (λ k c. P c) s.1.connections
  unfolding poll_connections
  poll_connections-Every clock b r s e =
      OnDone_at (λ s. Every (λ k c. P c) s.1.connections) _ s
        (OnDone-bind _ _ (poll_all ops answers b r.connections) _ (poll_all-Listed b r.connections)
          (λ p h. evict_all-Every P clock p.2 (record r { connections = p.1 }) h))
        e

module _ {A C : Type 0} (ops : Connection A C) where
  abbrev IsOpen : C → Type 0
  IsOpen c = ops.is_closed c ≡ false

  -- A connection that a poll leaves in the router is open.
  after_poll-IsOpen :
      (a : A) (b b' : SharedBuffer) (c c' : C) (result : IoResult (Unit {0}))
      → ops.poll a b c ≡ done (b', c', result)
      → ((after_poll ops (c', result)).1 ≡ true) ⊎ IsOpen (after_poll ops (c', result)).0
  unfolding after_poll
  after_poll-IsOpen a b b' c c' (ok _) e = Bool-cases (ops.is_closed c')
  after_poll-IsOpen a b b' c c' would_block e = inr (ops.blocked_open a b b' c c' e)
  after_poll-IsOpen a b b' c c' failed e = inl refl

  -- After a poll that returns, every connection in the router is open.
  pub poll_connections_leaves_open :
      (answers : ConnectionId → A) (clock : ConnectionId → ℕ) (b : SharedBuffer) (r : Router C)
      (s : SharedBuffer × Router C)
      → poll_connections ops answers clock b r ≡ done s
      → Every (λ k c. ops.is_closed c ≡ false) s.1.connections
  poll_connections_leaves_open answers =
      poll_connections-Every ops IsOpen answers
        (λ id b c. OnDone-intro _ _ (λ p e. after_poll-IsOpen (answers id) b p.0 c p.1 p.2 e))
