-- ===== src/Examples/Monitor.antt =====
-- The packets of the adb daemon and the devices that they list, at concrete inputs.
use gnirehtet.Base.{
  ℕ, ◌≡◌, ◌++◌, ◌<◌, refl, arith, false, not, List, [], ◌∷◌, some, none, length, done,
}
use gnirehtet.ByteBuffer
use gnirehtet.ByteBuffer.{ByteBuffer, peek}
use gnirehtet.ByteBuffer.Peek.{new-IsValid}
use gnirehtet.Text
use gnirehtet.Text.{from_utf8}
use gnirehtet.Text.Hex.{hex4}
use gnirehtet.AdbMonitor
use gnirehtet.AdbMonitor.{
  AdbMonitor, set_usb_only, filter_list, contains_text, consume_okay, next_packet, waits, fails,
  handle_packet,
}
use gnirehtet.AdbMonitor.Packets.{
  Returns, gives, ended, concat, frame, next_packet-Returns, consume_okay-ended,
}
use gnirehtet.AdbMonitor.Devices.{Device, AreDevices, listing, connected, handle_packet-listing}

abbrev text : List ℕ
text = b'a' ∷ b'b' ∷ []

-- The packet comes in three pieces, the last with the start of the next packet.
abbrev pieces : List (List ℕ)
pieces = (b'0' ∷ b'0' ∷ []) ∷ (b'0' ∷ b'2' ∷ b'a' ∷ []) ∷ (b'b' ∷ b'0' ∷ []) ∷ []

text-decoded : from_utf8 text ≡ some text
unfolding from_utf8 Text.decode_from Text.decode_byte
text-decoded = refl

pieces-frame : peek (ByteBuffer.new 10) ++ concat pieces ≡ frame text ++ (b'0' ∷ [])
unfolding peek ByteBuffer.new hex4
pieces-frame = refl

next_packet-Returns_example : Returns text (b'0' ∷ []) (gives pieces) (ByteBuffer.new 10)
unfolding ByteBuffer.new
next_packet-Returns_example =
    next_packet-Returns text text (b'0' ∷ []) (omega arith) text-decoded pieces (ByteBuffer.new 10)
      (new-IsValid 10) (omega arith, (omega arith, (omega arith, tt))) (omega arith) pieces-frame

-- Two bytes have come before the end.
abbrev cut : ByteBuffer
cut = record { buf = b'O' ∷ b'K' ∷ 0 ∷ 0 ∷ []; head = 2 }

cut_short : length (peek cut) < 4
unfolding peek
cut_short = omega arith

consume_okay-ended_example :
    (consume_okay (ended 5) cut ≡ done (waits cut)) × (next_packet (ended 6) cut ≡ done (fails cut))
consume_okay-ended_example = consume_okay-ended 5 cut cut_short

-- One device is ready, and one is not.
abbrev devices : List Device
devices =
    record { serial = b'x' ∷ b'1' ∷ []; state = b'd' ∷ b'e' ∷ b'v' ∷ b'i' ∷ b'c' ∷ b'e' ∷ [] }
    ∷ record { serial = b'y' ∷ []; state = b'o' ∷ b'f' ∷ b'f' ∷ [] }
    ∷ []

devices-AreDevices : AreDevices devices
unfolding Text.is_whitespace
devices-AreDevices = (
  (
    ((λ e. cc), (refl, (refl, tt))),
    ((λ e. cc), (refl, (refl, (refl, (refl, (refl, (refl, tt))))))),
  ),
  ((((λ e. cc), (refl, tt)), ((λ e. cc), (refl, (refl, (refl, tt))))), tt),
)

abbrev monitor : AdbMonitor
monitor = set_usb_only false AdbMonitor.new

monitor-all : monitor.usb_only ≡ false
unfolding set_usb_only
monitor-all = refl

handle_packet-listing_example : handle_packet none (listing devices) monitor ≡ (
  record monitor { connected_devices = connected devices },
  filter_list (λ s. not (contains_text s monitor.connected_devices)) (connected devices),
)
handle_packet-listing_example =
    handle_packet-listing none devices monitor devices-AreDevices monitor-all
