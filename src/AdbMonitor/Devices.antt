-- ===== src/AdbMonitor/Devices.antt =====
-- The devices that a packet lists, and those that the callback is told of.
use gnirehtet.Base.{
  ℕ, ◌≡◌, ◌∙◌, refl, ap, Bool, true, false, not, List, [], ◌∷◌, ◌++◌, Option, some, none,
  if◌then◌else◌, Bool-cases, inl, inr,
}
use gnirehtet.Text.{is_whitespace, lines, split_whitespace, same_text}
use gnirehtet.Text.Lines.{
  IsWord, IsLine-word, IsLine-append, lines-append, split_whitespace-append, split_whitespace_word,
}
use gnirehtet.AdbMonitor.{
  AdbMonitor, device_of, parse_connected_devices, filter_map, filter_list, contains_text,
  handle_packet,
}

-- A device as the daemon lists it.
pub record Device : Type 0 where
  pub serial : List ℕ
  pub state : List ℕ

abbrev pub AreDevices : List Device → Type 0
AreDevices [] = Unit {0}
AreDevices (d ∷ ds) = (IsWord d.serial × IsWord d.state) × AreDevices ds

abbrev line_of : Device → List ℕ
line_of d = d.serial ++ (9 ∷ d.state)

-- Each line is the serial, a tab, the state and a line feed.
abbrev pub listing : List Device → List ℕ
listing [] = []
listing (d ∷ ds) = line_of d ++ (10 ∷ listing ds)

abbrev pub device_word : List ℕ
device_word = b'd' ∷ b'e' ∷ b'v' ∷ b'i' ∷ b'c' ∷ b'e' ∷ []

-- The serials of the devices in the state `device`.
abbrev pub connected : List Device → List (List ℕ)
connected [] = []
connected (d ∷ ds) = if same_text d.state device_word then d.serial ∷ connected ds else connected ds

tab : is_whitespace 9 ≡ true
unfolding is_whitespace
tab = refl

words_of :
    (d : Device)
    → IsWord d.serial
    → IsWord d.state
    → split_whitespace (line_of d) ≡ d.serial ∷ d.state ∷ []
words_of d s t =
    split_whitespace-append d.serial 9 d.state s tab
    ∙ ap (◌∷◌ d.serial) (split_whitespace_word d.state t)

lines-listing :
    (d : Device) (ds : List Device)
    → IsWord d.serial
    → IsWord d.state
    → lines (listing (d ∷ ds)) ≡ line_of d ∷ lines (listing ds)
lines-listing d ds s t = lines-append (line_of d) (listing ds) (
    IsLine-append d.serial (9 ∷ d.state) (IsLine-word d.serial s.1)
      (refl, refl, IsLine-word d.state t.1))

device_of_line :
    (d : Device)
    → device_of (d.serial ∷ d.state ∷ [])
      ≡ (if same_text d.state device_word then some d.serial else none)
unfolding device_of
device_of_line d = refl

filter_map-some :
    (f : List ℕ → Option (List ℕ)) (x y : List ℕ) (xs : List (List ℕ))
    → f x ≡ some y
    → filter_map f (x ∷ xs) ≡ y ∷ filter_map f xs
filter_map-some f x y xs e = rw (e, filter_map) refl

filter_map-none :
    (f : List ℕ → Option (List ℕ)) (x : List ℕ) (xs : List (List ℕ))
    → f x ≡ none
    → filter_map f (x ∷ xs) ≡ filter_map f xs
filter_map-none f x xs e = rw (e, filter_map) refl

abbrev read_line : List ℕ → Option (List ℕ)
read_line l = device_of (split_whitespace l)

read_line-line_of :
    (d : Device) (b : Bool)
    → IsWord d.serial
    → IsWord d.state
    → same_text d.state device_word ≡ b
    → read_line (line_of d) ≡ (if b then some d.serial else none)
read_line-line_of d b s t e =
    ap device_of (words_of d s t) ∙ device_of_line d ∙ ap (λ x. if x then some d.serial else none) e

parsed :
    (ds : List Device) → AreDevices ds → filter_map read_line (lines (listing ds)) ≡ connected ds
parsed [] h = unfold lines in refl
parsed (d ∷ ds) ((s, t), h) = elim (Bool-cases (same_text d.state device_word)) [
  | inl e ↦
      ap (filter_map read_line) (lines-listing d ds s t)
      ∙ filter_map-some read_line (line_of d) d.serial (lines (listing ds))
          (read_line-line_of d true s t e)
      ∙ rw e (ap (◌∷◌ d.serial) (parsed ds h))
  | inr e ↦
      ap (filter_map read_line) (lines-listing d ds s t)
      ∙ filter_map-none read_line (line_of d) (lines (listing ds)) (read_line-line_of d false s t e)
      ∙ rw e (parsed ds h)
]

-- The packet of any devices, whose serials and states are words, makes the monitor that takes all
-- transports know the serials of those in the state `device`, and tells the callback of those that were not known, in the order of the packet.
pub handle_packet-listing :
    (usb : Option (List ℕ)) (ds : List Device) (m : AdbMonitor)
    → AreDevices ds
    → m.usb_only ≡ false
    → handle_packet usb (listing ds) m ≡ (
      record m { connected_devices = connected ds },
      filter_list (λ s. not (contains_text s m.connected_devices)) (connected ds),
    )
unfolding handle_packet parse_connected_devices
handle_packet-listing usb ds m h all = rw (all, parsed ds h) refl
