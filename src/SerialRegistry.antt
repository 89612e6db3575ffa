-- ===== src/SerialRegistry.antt =====
-- relay-rust/src/relay/serial_registry.rs: serials that wait for the connection of their device.
-- Instants are nanoseconds; the queue behind the lock is passed in and out.
pub mod Order
use gnirehtet.Base.{
  ℕ, ◌+◌, ◌-◌, ◌*◌, ◌^◌, List, [], ◌∷◌, ◌++◌, Option, none, some, length, drop, leb, ltb,
  if◌then◌else◌,
}

-- Thirty seconds.
abbrev pub match_window : ℕ
match_window = 30 * 10 ^ 9

abbrev pub max_pending : ℕ
max_pending = 8

pub record PendingEntry : Type 0 where
  pub serial : List ℕ
  pub registered_at : ℕ

-- `q.retain(…)`; `duration_since` is 0 for a later instant.
unfoldable pub retain : ℕ → List PendingEntry → List PendingEntry
retain now [] = []
retain now (e ∷ q) =
    let rest = retain now q in if ltb (now - e.registered_at) match_window then e ∷ rest else rest

-- The oldest entry goes if the queue is full.
unfoldable pub bounded : List PendingEntry → List PendingEntry
bounded q = if leb max_pending (length q) then drop 1 q else q

unfoldable pub register_pending : ℕ → List ℕ → List PendingEntry → List PendingEntry
register_pending now serial q =
    bounded (retain now q) ++ (record { serial = serial; registered_at = now } ∷ [])

-- The loop over the expired entries at the front.
unfoldable pub drop_expired : ℕ → List PendingEntry → List PendingEntry
drop_expired now [] = []
drop_expired now (e ∷ q) =
    let rest = drop_expired now q in
    if leb match_window (now - e.registered_at) then rest else e ∷ q

-- `q.pop_front().map(|e| e.serial)`.
unfoldable pub pop_front : List PendingEntry → List PendingEntry × Option (List ℕ)
pop_front [] = ([], none)
pop_front (e ∷ q) = (q, some e.serial)

unfoldable pub take_pending : ℕ → List PendingEntry → List PendingEntry × Option (List ℕ)
take_pending now q = pop_front (drop_expired now q)
