-- ===== src/Header/Swap.antt =====
-- `slice::swap`, and the loops that exchange two fields of equal size.
use gnirehtet.Base.{
  ℕ, zero, suc, ◌+◌, ◌≡◌, refl, List, get_or, set, length, length-set, IsBytes, set-IsBytes,
  byte_at-lt, ◌∙◌,
}

-- `raw.swap(i, j)`.
pub swap : ℕ → ℕ → List ℕ → List ℕ
swap i j raw = set (set raw i (get_or raw j 0)) j (get_or raw i 0)

-- `for i in lo..lo + rounds { raw.swap(i, i + dist) }`.
unfoldable pub swap_fields : ℕ → ℕ → ℕ → List ℕ → List ℕ
unfolding swap
swap_fields zero lo dist raw = raw
swap_fields (suc rounds) lo dist raw = swap_fields rounds (lo + 1) dist (swap lo (lo + dist) raw)

pub length-swap_fields :
    (rounds lo dist : ℕ) (raw : List ℕ) → length (swap_fields rounds lo dist raw) ≡ length raw
unfolding swap_fields
length-swap_fields zero lo dist raw = refl
length-swap_fields (suc rounds) lo dist raw =
    length-swap_fields rounds (lo + 1) dist (swap lo (lo + dist) raw)
    ∙ length-set (set raw lo (get_or raw (lo + dist) 0)) (lo + dist) (get_or raw lo 0)
    ∙ length-set raw lo (get_or raw (lo + dist) 0)

pub swap_fields-IsBytes :
    (rounds lo dist : ℕ) (xs : List ℕ) → IsBytes xs → IsBytes (swap_fields rounds lo dist xs)
unfolding swap_fields swap
swap_fields-IsBytes zero lo dist xs h = h
swap_fields-IsBytes (suc rounds) lo dist xs h =
    swap_fields-IsBytes rounds (lo + 1) dist (swap lo (lo + dist) xs) (
      set-IsBytes _ (lo + dist) _ (byte_at-lt lo xs h)
        (set-IsBytes xs lo _ (byte_at-lt (lo + dist) xs h) h))
