-- ===== src/AdbMonitor.antt =====
-- relay-rust/src/adb_monitor.rs: the packets of the adb daemon's `track-devices`, and the devices that they
-- announce. The answers of the daemon's socket and the output of `adb devices -l` are arguments. What the
-- callback is told is a result.
pub mod Packets
pub mod Devices
use gnirehtet.Base.{
  ℕ, ◌+◌, ◌-◌, Bool, true, false, not, ◌&&◌, List, [], ◌∷◌, ◌++◌, Option, none, some, length, take,
  slice, ltb, leb, if◌then◌else◌, IoResult, ok, would_block, failed, Outcome, done, panic, ◌>>=◌,
  ◌>>◌, check,
}
use gnirehtet.ByteBuffer
use gnirehtet.ByteBuffer.{ByteBuffer}
use gnirehtet.Text
use gnirehtet.Text.Numbers
use gnirehtet.Text.{same_text}

abbrev pub buffer_size : ℕ
buffer_size = 65536

pub record AdbMonitor : Type 0 where
  pub buf : ByteBuffer
  pub connected_devices : List (List ℕ)
  pub usb_only : Bool

unfoldable pub new : AdbMonitor
new = record { buf = ByteBuffer.new buffer_size; connected_devices = []; usb_only = true }

unfoldable pub set_usb_only : Bool → AdbMonitor → AdbMonitor
set_usb_only enabled m = record m { usb_only = enabled }

-- An error of kind InvalidInput is `failed`.
unfoldable pub or_failed {ℓ} : {A : Type ℓ} → Option A → IoResult A
or_failed none = failed
or_failed (some a) = ok a

abbrev pub and_then {ℓ κ} : {A : Type ℓ} {B : Type κ} → IoResult A → (A → IoResult B) → IoResult B
and_then (ok a) f = f a
and_then would_block f = would_block
and_then failed f = failed

-- The assertion on four bytes holds where it is called.
unfoldable pub parse_length : List ℕ → IoResult ℕ
unfolding or_failed
parse_length bytes =
    and_then (or_failed (Text.from_utf8 bytes)) (λ hexa. or_failed (Numbers.from_hex hexa))

-- What the length field says of the bytes that are there.
unfoldable pub fits : List ℕ → ℕ → IoResult (Option ℕ)
fits input len =
    if ltb buffer_size len
    then failed
    else if leb len (length input - 4)
    then ok (some (4 + len))
    else ok none

unfoldable pub available_packet_length : List ℕ → IoResult (Option ℕ)
unfolding parse_length fits
available_packet_length input =
    if ltb (length input) 4 then ok none else and_then (parse_length (take 4 input)) (fits input)

-- The packet of a length is retrieved and consumed.
unfoldable pub retrieve :
    ByteBuffer → IoResult (Option ℕ) → Outcome (ByteBuffer × IoResult (Option (List ℕ)))
retrieve b (ok none) = done (b, ok none)
retrieve b would_block = done (b, would_block)
retrieve b failed = done (b, failed)
retrieve b (ok (some len)) = elim (Text.from_utf8 (slice 4 len (ByteBuffer.peek b))) [
  | none ↦ done (b, failed)
  | some text ↦ ByteBuffer.consume len b >>= λ b'. done (b', ok (some text))
]

unfoldable pub read_packet : ByteBuffer → Outcome (ByteBuffer × IoResult (Option (List ℕ)))
unfolding available_packet_length retrieve
read_packet b = retrieve b (available_packet_length (ByteBuffer.peek b))

-- The end of the stream is an error.
unfoldable pub fill_buffer_from :
    (ℕ → IoResult (List ℕ)) → ByteBuffer → ByteBuffer × IoResult (Unit {0})
fill_buffer_from read b =
    let (b', r) = ByteBuffer.read_from read b in
    (b', and_then r (λ more. if more then ok tt else failed))

-- How far a loop over the socket's answers comes: it returns, with the answers that are left; it fails; or it
-- has used all answers and waits for the next.
pub data Progress (A : Type 0) : Type 0 where
  returns : A → ByteBuffer → List (ℕ → IoResult (List ℕ)) → Progress A
  fails : ByteBuffer → Progress A
  waits : ByteBuffer → Progress A

abbrev pub Answers : Type 0
Answers = List (ℕ → IoResult (List ℕ))

-- After an answer the loop goes on, or fails with the answer's error.
unfoldable pub goes_on {ℓ} : {A : Type ℓ} → IoResult A → Bool
goes_on (ok _) = true
goes_on would_block = false
goes_on failed = false

-- `consume_okay`: the loop asks for more until there are four bytes; the end of the stream does not end it.
unfoldable pub consume_okay : Answers → ByteBuffer → Outcome (Progress Bool)
unfolding goes_on
consume_okay [] b = if ltb (length (ByteBuffer.peek b)) 4 then done (waits b) else do
  b' ← ByteBuffer.consume 4 b
  done (returns (same_text (b'O' ∷ b'K' ∷ b'A' ∷ b'Y' ∷ []) (take 4 (ByteBuffer.peek b))) b' [])
consume_okay (read ∷ reads) b =
    let r = ByteBuffer.read_from read b in
    let rest = consume_okay reads r.0 in
    if ltb (length (ByteBuffer.peek b)) 4
    then (if goes_on r.1 then rest else done (fails r.0))
    else do
      b' ← ByteBuffer.consume 4 b
      done (
          returns (same_text (b'O' ∷ b'K' ∷ b'A' ∷ b'Y' ∷ []) (take 4 (ByteBuffer.peek b))) b'
            (read ∷ reads))

-- What a call of `read_packet` makes of the loop, given what the loop does after a further answer.
unfoldable pub next_of :
    Answers
    → (ByteBuffer → Outcome (Progress (List ℕ)))
    → ByteBuffer × IoResult (Option (List ℕ))
    → Outcome (Progress (List ℕ))
next_of reads more (b, ok (some text)) = done (returns text b reads)
next_of reads more (b, ok none) = more b
next_of reads more (b, would_block) = done (fails b)
next_of reads more (b, failed) = done (fails b)

unfoldable pub next_packet : Answers → ByteBuffer → Outcome (Progress (List ℕ))
unfolding next_of goes_on
next_packet [] b = read_packet b >>= next_of [] (λ b'. done (waits b'))
next_packet (read ∷ reads) b =
    let more = next_packet reads in
    read_packet b
    >>= next_of (read ∷ reads) (λ b'.
      let r = fill_buffer_from read b' in if goes_on r.1 then more r.0 else done (fails r.0))

-- The serial of a line whose second word is `device`.
unfoldable pub device_of : List (List ℕ) → Option (List ℕ)
device_of [] = none
device_of (serial ∷ []) = none
device_of (serial ∷ state ∷ _) =
    if same_text state (b'd' ∷ b'e' ∷ b'v' ∷ b'i' ∷ b'c' ∷ b'e' ∷ []) then some serial else none

abbrev pub filter_map {ℓ κ} : {A : Type ℓ} {B : Type κ} → (A → Option B) → List A → List B
filter_map f [] = []
filter_map f (x ∷ xs) = let rest = filter_map f xs in elim (f x) [ none ↦ rest | some y ↦ y ∷ rest ]

unfoldable pub parse_connected_devices : List ℕ → List (List ℕ)
unfolding device_of
parse_connected_devices packet =
    filter_map (λ l. device_of (Text.split_whitespace l)) (Text.lines packet)

abbrev pub filter_list {ℓ} : {A : Type ℓ} → (A → Bool) → List A → List A
filter_list p [] = []
filter_list p (x ∷ xs) = let rest = filter_list p xs in if p x then x ∷ rest else rest

abbrev pub contains_text : List ℕ → List (List ℕ) → Bool
contains_text t [] = false
contains_text t (u ∷ us) = if same_text t u then true else contains_text t us

-- The serials that `adb devices -l` lists for another transport than TCP.
unfoldable pub usb_serials : List ℕ → List (List ℕ)
usb_serials stdout =
    filter_map (λ l. device_of (Text.split_whitespace l))
      (filter_list (λ l. not (Text.contains (b't' ∷ b'c' ∷ b'p' ∷ b':' ∷ []) l))
        (Text.lines stdout))

-- `none` is an adb that failed: nothing is filtered.
unfoldable pub filter_usb_only : Option (List ℕ) → List (List ℕ) → List (List ℕ)
unfolding usb_serials
filter_usb_only none serials = serials
filter_usb_only (some stdout) serials =
    filter_list (λ s. contains_text s (usb_serials stdout)) serials

-- The monitor, and the serials that the callback is told of.
unfoldable pub handle_packet : Option (List ℕ) → List ℕ → AdbMonitor → AdbMonitor × List (List ℕ)
handle_packet usb packet m =
    let current = parse_connected_devices packet in
    let filtered = if m.usb_only then filter_usb_only usb current else current in
    (
      record m { connected_devices = filtered },
      filter_list (λ s. not (contains_text s m.connected_devices)) filtered,
    )
