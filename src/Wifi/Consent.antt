-- ===== src/Wifi/Consent.antt =====
-- When the setup of the dummy Wi-Fi takes the host's own connection.
use mathlib.Core.List.{Memᴰ}
use gnirehtet.Base.{
  ℕ, ◌≡◌, refl, Bool, true, false, List, [], ◌∷◌, Option, none, some, Bool-cases, inl, inr,
}
use gnirehtet.Wifi.{
  WifiInterface, OpenAp, Host, is_free, find, select_interface_for_hotspot, chosen_or,
  offer_open_ap, prompt_default_no, create_hotspot, take_over, unless_offered, unless_requested,
  by_interface, setup_dummy_wifi, reuse, skipped,
}

-- Why a hotspot may be tried on an interface: the platform chooses where the host names none, the interface serves no
-- network of the user, the user forced it, or agreed at a terminal.
pub data IsAllowed (host : Host) (force : Bool) : Option (List ℕ) → Type 0 where
  platform : host.interfaces ≡ [] → IsAllowed host force none
  free :
      (i : WifiInterface)
      → Memᴰ i host.interfaces
      → is_free i ≡ true
      → IsAllowed host force (some i.name)
  forced :
      (i : WifiInterface)
      → Memᴰ i host.interfaces
      → force ≡ true
      → IsAllowed host force (some i.name)
  agreed :
      (i : WifiInterface)
      → Memᴰ i host.interfaces
      → host.terminal ≡ true
      → prompt_default_no host.confirmed_line ≡ true
      → IsAllowed host force (some i.name)

abbrev pub AreAllowed : Host → Bool → List (Option (List ℕ)) → Type 0
AreAllowed host force [] = Unit {0}
AreAllowed host force (i ∷ is) = IsAllowed host force i × AreAllowed host force is

-- The selected interface is one of the host's, and free unless its use is destructive.
IsSelected : List WifiInterface → Option (WifiInterface × Bool) → Type 0
IsSelected is none = is ≡ []
IsSelected is (some (i, false)) = Memᴰ i is × (is_free i ≡ true)
IsSelected is (some (i, true)) = Memᴰ i is

module _ (first : WifiInterface) (all : List WifiInterface) (there : Memᴰ first all) where
  chosen-IsSelected :
      (is : List WifiInterface)
      → ((i : WifiInterface) → Memᴰ i is → Memᴰ i all)
      → IsSelected all (some (chosen_or first (find is_free is)))
  unfolding IsSelected chosen_or
  chosen-IsSelected [] sub = there
  chosen-IsSelected (i ∷ is) sub = elim (Bool-cases (is_free i)) [
    | inl e ↦ rw e (sub i (Memᴰ.head refl), e)
    | inr e ↦ rw e (chosen-IsSelected is (λ j m. sub j (Memᴰ.tail m)))
  ]

select-IsSelected : (is : List WifiInterface) → IsSelected is (select_interface_for_hotspot is)
unfolding IsSelected select_interface_for_hotspot
select-IsSelected [] = refl
select-IsSelected (i ∷ is) = chosen-IsSelected i (i ∷ is) (Memᴰ.head refl) (i ∷ is) (λ j m. m)

module _ (host : Host) (ssid : Option (List ℕ)) (force : Bool) where
  take_over-AreAllowed :
      (i : WifiInterface)
      → Memᴰ i host.interfaces
      → AreAllowed host force (take_over host ssid force i).tried
  unfolding take_over create_hotspot skipped
  take_over-AreAllowed i m = elim (Bool-cases force) [
    | inl f ↦ rw f (forced i m refl, tt)
    | inr f ↦ elim (Bool-cases host.terminal) [
      | inl t ↦ elim (Bool-cases (prompt_default_no host.confirmed_line)) [
        | inl c ↦ simp (f, t, c) (agreed i m t c, tt)
        | inr c ↦ simp (f, t, c) tt
      ]
      | inr t ↦ simp (f, t) tt
    ]
  ]

  unless_offered-AreAllowed :
      (i : WifiInterface) (chosen : Option (List ℕ))
      → Memᴰ i host.interfaces
      → AreAllowed host force (unless_offered host ssid force i chosen).tried
  unfolding unless_offered reuse
  unless_offered-AreAllowed i (some s) m = tt
  unless_offered-AreAllowed i none m = take_over-AreAllowed i m

  unless_requested-AreAllowed :
      (i : WifiInterface) (aps : List OpenAp) (ap : Option OpenAp)
      → Memᴰ i host.interfaces
      → AreAllowed host force (unless_requested host ssid force i aps ap).tried
  unfolding unless_requested reuse
  unless_requested-AreAllowed i aps (some ap) m = tt
  unless_requested-AreAllowed i aps none m =
      unless_offered-AreAllowed i (offer_open_ap host.terminal host.offered_line aps) m

  by_interface-AreAllowed :
      (s : Option (WifiInterface × Bool))
      → IsSelected host.interfaces s
      → AreAllowed host force (by_interface host ssid force s).tried
  unfolding by_interface create_hotspot IsSelected
  by_interface-AreAllowed none e = (platform e, tt)
  by_interface-AreAllowed (some (i, false)) (m, e) = (free i m e, tt)
  by_interface-AreAllowed (some (i, true)) m = unless_requested-AreAllowed i _ _ m

  -- Without an interface that the user names, a hotspot is tried on none that is connected to a network other than a
  -- `gnirehtet-` one, unless the user forces this or agrees to it at a terminal; and it is tried on one of the host's
  -- interfaces, if the host names some.
  pub setup_dummy_wifi-AreAllowed :
      AreAllowed host force (setup_dummy_wifi host ssid none force).tried
  unfolding setup_dummy_wifi
  setup_dummy_wifi-AreAllowed =
      by_interface-AreAllowed (select_interface_for_hotspot host.interfaces)
        (select-IsSelected host.interfaces)
