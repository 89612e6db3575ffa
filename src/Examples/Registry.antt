-- ===== src/Examples/Registry.antt =====
-- The registry of serials at concrete inputs.
use gnirehtet.Base.{ℕ, ◌+◌, ◌≡◌, arith, List, [], ◌∷◌}
use gnirehtet.SerialRegistry.{PendingEntry, match_window, retain, pop_front, take_pending}
use gnirehtet.SerialRegistry.Order.{IsOrdered, take_pending-retain}

-- Two entries, of which the first expires.
abbrev entries : List PendingEntry
entries =
    record { serial = 65 ∷ []; registered_at = 5 }
    ∷ record { serial = 66 ∷ []; registered_at = 1000 }
    ∷ []

abbrev later : ℕ
later = match_window + 500

entries-IsOrdered : IsOrdered 0 later entries
entries-IsOrdered = (omega arith, (omega arith, omega arith))

take_pending-retain_example : take_pending later entries ≡ pop_front (retain later entries)
take_pending-retain_example = take_pending-retain 0 later entries entries-IsOrdered
