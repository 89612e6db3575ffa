-- ===== src/Wifi.antt =====
-- relay-rust/src/wifi.rs, and the setup of the dummy Wi-Fi of commands.rs: which interface and which network serve. What
-- the host answers is an argument: the interfaces, the open networks in range with the strongest first, the lines
-- that the user types, and whether a hotspot starts. Messages and pauses are left out.
pub mod Consent
use gnirehtet.Base.{
  ℕ, zero, suc, ◌==◌, Bool, true, false, not, ◌||◌, ◌&&◌, List, [], ◌∷◌, Option, none, some, ltb,
  leb, if◌then◌else◌,
}
use gnirehtet.Text
use gnirehtet.Text.Numbers
use gnirehtet.Text.{same_text, starts_with}
use gnirehtet.AdbMonitor.{filter_map, filter_list}
use gnirehtet.Adb.{codes}

pub record WifiInterface : Type 0 where
  pub name : List ℕ
  pub connected : Bool
  pub current_ssid : Option (List ℕ)

pub record OpenAp : Type 0 where
  pub ssid : List ℕ
  pub signal : ℕ

abbrev pub own_prefix : List ℕ
own_prefix = codes "gnirehtet-"

unfoldable pub is_ours : Option (List ℕ) → Bool
is_ours none = false
is_ours (some ssid) = starts_with own_prefix ssid

unfoldable pub is_free : WifiInterface → Bool
unfolding is_ours
is_free i = not i.connected || is_ours i.current_ssid

abbrev pub find {ℓ} : {A : Type ℓ} → (A → Bool) → List A → Option A
find p [] = none
find p (x ∷ xs) = let rest = find p xs in if p x then some x else rest

unfoldable pub chosen_or : WifiInterface → Option WifiInterface → WifiInterface × Bool
chosen_or first none = (first, true)
chosen_or first (some i) = (i, false)

-- The interface, and whether its use is destructive.
unfoldable pub select_interface_for_hotspot : List WifiInterface → Option (WifiInterface × Bool)
unfolding is_free chosen_or
select_interface_for_hotspot [] = none
select_interface_for_hotspot (i ∷ is) = some (chosen_or i (find is_free (i ∷ is)))

-- `replace("\\:", ":")`.
unfoldable pub unescape : List ℕ → List ℕ
unescape [] = []
unescape (c ∷ []) = c ∷ []
unescape (c ∷ d ∷ cs) =
    let rest = unescape cs in
    let later = unescape (d ∷ cs) in if c == 92 && d == 58 then 58 ∷ rest else c ∷ later

abbrev pub first_or_empty : List (List ℕ) → List ℕ
first_or_empty [] = []
first_or_empty (p ∷ ps) = p

unfoldable pub wifi_interface : List ℕ → List ℕ → List ℕ → WifiInterface
unfolding unescape
wifi_interface name state connection =
    let connected = same_text state (codes "connected") in
    record {
      name = name;
      connected = connected;
      current_ssid =
          if connected && not (same_text connection []) then some (unescape connection) else none;
    }

unfoldable pub interface_of : List (List ℕ) → Option WifiInterface
unfolding wifi_interface
interface_of [] = none
interface_of (name ∷ []) = none
interface_of (name ∷ kind ∷ []) = none
interface_of (name ∷ kind ∷ state ∷ rest) =
    if same_text kind (codes "wifi")
    then some (wifi_interface name state (first_or_empty rest))
    else none

unfoldable pub parse_nmcli_device_line : List ℕ → Option WifiInterface
unfolding interface_of
parse_nmcli_device_line line = interface_of (Text.splitn 4 58 line)

-- `none` is a failure of nmcli.
unfoldable pub list_wifi_interfaces : Option (List ℕ) → List WifiInterface
unfolding parse_nmcli_device_line
list_wifi_interfaces none = []
list_wifi_interfaces (some stdout) = filter_map parse_nmcli_device_line (Text.lines stdout)

unfoldable pub prompt_default_no : Option (List ℕ) → Bool
prompt_default_no none = false
prompt_default_no (some line) =
    let answer = Text.to_ascii_lowercase (Text.trim line) in
    same_text answer (codes "y") || same_text answer (codes "yes")

unfoldable pub prompt_default_yes : Option (List ℕ) → Bool
unfolding prompt_default_no
prompt_default_yes none = false
prompt_default_yes (some line) =
    same_text (Text.to_ascii_lowercase (Text.trim line)) [] || prompt_default_no (some line)

-- The network with this number, from 1.
unfoldable pub nth_ap : ℕ → List OpenAp → Option (List ℕ)
nth_ap n [] = none
nth_ap zero (ap ∷ aps) = none
nth_ap (suc zero) (ap ∷ aps) = some ap.ssid
nth_ap (suc (suc n)) (ap ∷ aps) = nth_ap (suc n) aps

abbrev pub or_zero : Option ℕ → ℕ
or_zero none = 0
or_zero (some n) = n

unfoldable pub chosen_ap : List OpenAp → Option (List ℕ) → Option (List ℕ)
unfolding nth_ap
chosen_ap aps none = none
chosen_ap aps (some line) = nth_ap (or_zero (Numbers.parse_unsigned 64 (Text.trim line))) aps

unfoldable pub offer_open_ap : Bool → Option (List ℕ) → List OpenAp → Option (List ℕ)
unfolding prompt_default_yes chosen_ap
offer_open_ap terminal line [] = none
offer_open_ap terminal line (ap ∷ []) =
    if not terminal then some ap.ssid else if prompt_default_yes line then some ap.ssid else none
offer_open_ap terminal line (ap ∷ ap' ∷ aps) =
    if not terminal then some ap.ssid else chosen_ap (ap ∷ ap' ∷ aps) line

-- A hotspot that is active, with its SSID.
pub record Hotspot : Type 0 where
  pub ssid : List ℕ

pub record DummyWifiOutcome : Type 0 where
  pub hotspot : Option Hotspot
  pub ssid_for_client : Option (List ℕ)

unfoldable pub empty : DummyWifiOutcome
empty = record { hotspot = none; ssid_for_client = none }

-- The answers of the host.
pub record Host : Type 0 where
  pub interfaces : List WifiInterface
  pub open_aps : List ℕ → List OpenAp
  pub terminal : Bool
  pub offered_line : Option (List ℕ)
  pub confirmed_line : Option (List ℕ)
  pub start : Option (List ℕ) → Option (List ℕ) → Option (List ℕ)

-- The interfaces on which a hotspot was tried, where `none` leaves the choice to the platform, and the outcome.
pub record Setup : Type 0 where
  pub tried : List (Option (List ℕ))
  pub outcome : DummyWifiOutcome

unfoldable pub started : Option (List ℕ) → DummyWifiOutcome
unfolding empty
started none = empty
started (some ssid) = record {
  hotspot = some (record { ssid = ssid });
  ssid_for_client = some ssid;
}

-- The network of an access point that already exists.
unfoldable pub reuse : List ℕ → Setup
reuse ssid = record { tried = []; outcome = record { hotspot = none; ssid_for_client = some ssid } }

unfoldable pub skipped : Setup
unfolding empty
skipped = record { tried = []; outcome = empty }

unfoldable pub is_reusable : WifiInterface → OpenAp → Bool
is_reusable i ap =
    not (Text.same_option (some ap.ssid) i.current_ssid) && not (starts_with own_prefix ap.ssid)

unfoldable pub requested_ap : Option (List ℕ) → List OpenAp → Option OpenAp
requested_ap none aps = none
requested_ap (some ssid) aps = find (λ ap. same_text ap.ssid ssid) aps

module _ (host : Host) where
  unfoldable pub create_hotspot : Option (List ℕ) → Option (List ℕ) → Setup
  unfolding started
  create_hotspot ssid interface = record {
    tried = interface ∷ [];
    outcome = started (host.start ssid interface);
  }

  -- The interface is connected, and no network in range serves.
  unfoldable pub take_over : Option (List ℕ) → Bool → WifiInterface → Setup
  unfolding create_hotspot skipped prompt_default_no
  take_over ssid force i =
      if force
      then create_hotspot ssid (some i.name)
      else if not host.terminal
      then skipped
      else if prompt_default_no host.confirmed_line
      then create_hotspot ssid (some i.name)
      else skipped

  unfoldable pub unless_offered : Option (List ℕ) → Bool → WifiInterface → Option (List ℕ) → Setup
  unfolding take_over reuse
  unless_offered ssid force i (some chosen) = reuse chosen
  unless_offered ssid force i none = take_over ssid force i

  unfoldable pub unless_requested :
      Option (List ℕ) → Bool → WifiInterface → List OpenAp → Option OpenAp → Setup
  unfolding unless_offered offer_open_ap
  unless_requested ssid force i aps (some ap) = reuse ap.ssid
  unless_requested ssid force i aps none =
      unless_offered ssid force i (offer_open_ap host.terminal host.offered_line aps)

  unfoldable pub by_interface : Option (List ℕ) → Bool → Option (WifiInterface × Bool) → Setup
  unfolding unless_requested is_reusable requested_ap
  by_interface ssid force none = create_hotspot ssid none
  by_interface ssid force (some (i, false)) = create_hotspot ssid (some i.name)
  by_interface ssid force (some (i, true)) =
      let aps = filter_list (is_reusable i) (host.open_aps i.name) in
      unless_requested ssid force i aps (requested_ap ssid aps)

  unfoldable pub setup_dummy_wifi : Option (List ℕ) → Option (List ℕ) → Bool → Setup
  unfolding by_interface select_interface_for_hotspot
  setup_dummy_wifi ssid (some name) force = create_hotspot ssid (some name)
  setup_dummy_wifi ssid none force =
      by_interface ssid force (select_interface_for_hotspot host.interfaces)
