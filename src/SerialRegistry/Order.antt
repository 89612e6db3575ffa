-- ===== src/SerialRegistry/Order.antt =====
-- The queue is in the order of registration, so that what expired stands at its front.
use gnirehtet.Base.{
  ℕ, ◌-◌, ◌≤◌, ◌<◌, ◌≡◌, refl, ap, arith, Bool-cases, inl, inr, List, [], ◌∷◌, ◌++◌, length,
  length-append, length-drop, drop, leb, ltb, lt→ltb, dec_lt,
}
use gnirehtet.SerialRegistry.{
  match_window, max_pending, PendingEntry, retain, bounded, register_pending, drop_expired,
  pop_front, take_pending,
}

-- Registered at `low` or later, each not before the last, and not after `now`.
abbrev pub IsOrdered : ℕ → ℕ → List PendingEntry → Type 0
IsOrdered low now [] = low ≤ now
IsOrdered low now (e ∷ q) = (low ≤ e.registered_at) × IsOrdered e.registered_at now q

IsOrdered-low :
    (low low' now : ℕ) (q : List PendingEntry)
    → low' ≤ low
    → IsOrdered low now q
    → IsOrdered low' now q
IsOrdered-low low low' now [] le o = omega arith
IsOrdered-low low low' now (e ∷ q) le (first, o) = (omega arith, o)

-- Behind an entry that is fresh, every entry is.
retain_fresh :
    (low now : ℕ) (q : List PendingEntry)
    → now - low < match_window
    → IsOrdered low now q
    → retain now q ≡ q
unfolding retain
retain_fresh low now [] fresh o = refl
retain_fresh low now (e ∷ q) fresh (first, o) =
    let here : now - e.registered_at < match_window = omega arith in
    rw (lt→ltb _ _ here) (ap (◌∷◌ e) (retain_fresh e.registered_at now q here o))

-- On a queue in the order of registration, the loop that stops at the first fresh entry keeps the same
-- entries as the filter over the whole queue.
pub drop_expired-retain :
    (low now : ℕ) (q : List PendingEntry) → IsOrdered low now q → drop_expired now q ≡ retain now q
unfolding drop_expired retain
drop_expired-retain low now [] o = refl
drop_expired-retain low now (e ∷ q) (first, o) =
    elim (dec_lt (now - e.registered_at) match_window) [
      | yes fresh ↦ ground (arith, retain_fresh e.registered_at now q fresh o)
      | no old ↦ ground (arith, drop_expired-retain e.registered_at now q o)
    ]

retain-IsOrdered :
    (low now now' : ℕ) (q : List PendingEntry)
    → IsOrdered low now q
    → IsOrdered low now (retain now' q)
unfolding retain
retain-IsOrdered low now now' [] o = o
retain-IsOrdered low now now' (e ∷ q) (first, o) =
    let rest = retain-IsOrdered e.registered_at now now' q o in
    elim (Bool-cases (ltb (now' - e.registered_at) match_window)) [
      | inl fresh ↦ rw fresh (first, rest)
      | inr old ↦ rw old (IsOrdered-low e.registered_at low now _ first rest)
    ]

drop-IsOrdered :
    (low now : ℕ) (q : List PendingEntry) → IsOrdered low now q → IsOrdered low now (drop 1 q)
drop-IsOrdered low now [] o = o
drop-IsOrdered low now (e ∷ q) (first, o) = IsOrdered-low e.registered_at low now q first o

append-IsOrdered :
    (low now : ℕ) (q : List PendingEntry) (e : PendingEntry)
    → IsOrdered low now q
    → e.registered_at ≡ now
    → IsOrdered low now (q ++ (e ∷ []))
append-IsOrdered low now [] e o at = (omega arith, omega arith)
append-IsOrdered low now (e' ∷ q) e (first, o) at =
    (first, append-IsOrdered e'.registered_at now q e o at)

length-retain : (now : ℕ) (q : List PendingEntry) → length (retain now q) ≤ length q
unfolding retain
length-retain now [] = omega arith
length-retain now (e ∷ q) = ground (arith, length-retain now q)

length-bounded : (q : List PendingEntry) → length q ≤ max_pending → length (bounded q) < max_pending
unfolding bounded
length-bounded q few = ground (arith, length-drop 1 q)

bounded-IsOrdered :
    (low now : ℕ) (q : List PendingEntry) → IsOrdered low now q → IsOrdered low now (bounded q)
unfolding bounded
bounded-IsOrdered low now q o = elim (Bool-cases (leb max_pending (length q))) [
  | inl full ↦ rw full (drop-IsOrdered low now q o)
  | inr room ↦ rw room o
]

-- Registering in a queue that is in order and has eight entries at most keeps both.
register_pending-IsOrdered :
    (low now : ℕ) (serial : List ℕ) (q : List PendingEntry)
    → IsOrdered low now q
    → length q ≤ max_pending
    → IsOrdered low now (register_pending now serial q)
      × (length (register_pending now serial q) ≤ max_pending)
unfolding register_pending
register_pending-IsOrdered low now serial q o few =
    let kept = retain now q in
    let e : PendingEntry = record { serial = serial; registered_at = now } in
    (
      append-IsOrdered low now (bounded kept) e
          (bounded-IsOrdered low now kept (retain-IsOrdered low now now q o)) refl,
      omega (
        arith,
        length-append (bounded kept) (e ∷ []),
        length-bounded kept (omega (arith, length-retain now q)),
      ),
    )

-- On a queue in order, taking gives the oldest entry of the last thirty seconds and leaves the others
-- of these, or gives nothing if there is none.
pub take_pending-retain :
    (low now : ℕ) (q : List PendingEntry)
    → IsOrdered low now q
    → take_pending now q ≡ pop_front (retain now q)
unfolding take_pending
take_pending-retain low now q o = ap pop_front (drop_expired-retain low now q o)
