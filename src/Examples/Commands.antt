-- ===== src/Examples/Commands.antt =====
-- The commands about a device and the setup of the dummy Wi-Fi at concrete inputs.
use gnirehtet.Base.{ℕ, ◌≡◌, refl, true, false, List, [], ◌∷◌, some, none}
use gnirehtet.SerialRegistry
use gnirehtet.Text
use gnirehtet.Text.Numbers
use gnirehtet.Adb
use gnirehtet.Adb.{codes, Args, Answer, exited, not_started, World, ok, ◌>>=◌, ◌>>◌, forward, auto}
use gnirehtet.Commands
use gnirehtet.Commands.{ClientOptions, restart_options, cmd_start, cmd_restart}
use gnirehtet.Commands.Device.{AreFor, cmd_restart-AreFor}
use gnirehtet.Commands.Pending.{cmd_start-register_pending}
use gnirehtet.Wifi.{Host, setup_dummy_wifi}
use gnirehtet.Wifi.Consent.{AreAllowed, setup_dummy_wifi-AreAllowed}

-- An adb that always succeeds, and prints the level 19.
abbrev adb : List Args → Args → Answer
adb log args = exited true (b'1' ∷ b'9' ∷ 10 ∷ [])

abbrev serial : List ℕ
serial = b's' ∷ b'1' ∷ []

abbrev world : World
world = record { log = []; registry = [] }

abbrev apk : List ℕ
apk = codes "gnirehtet.apk"

cmd_restart-AreFor_example :
    AreFor serial (cmd_restart adb apk 5 (some serial) none none 31416 auto world).0.log
cmd_restart-AreFor_example = cmd_restart-AreFor adb serial apk 5 none none 31416 auto world tt

started :
    (cmd_start adb apk 5 (some serial) 31416 forward (restart_options none none) world).1 ≡ ok tt
unfolding cmd_start ◌>>=◌ ◌>>◌ Adb.must_install_client Adb.give Adb.ignoring Adb.run Adb.checked
    Adb.exec_adb Adb.outdated_by Adb.query_device_sdk Commands.when Commands.cmd_install
    Commands.after_install Commands.grant_runtime_permissions Commands.grant_vpn_permission
    Commands.grant Commands.effective_serial Commands.register Commands.cmd_tunnel
    Commands.disable_portal Adb.sdk_of Adb.is_outdated Adb.version_code Adb.code_of Text.lines
    Text.trim Text.trim_start Text.trim_end Text.is_whitespace Text.split_whitespace
    Numbers.parse_unsigned Numbers.decimal_digits
started = refl

cmd_start-register_pending_example :
    (cmd_start adb apk 5 (some serial) 31416 forward (restart_options none none) world).0.registry
    ≡ SerialRegistry.register_pending 5 serial []
cmd_start-register_pending_example =
    cmd_start-register_pending adb serial apk 5 31416 forward (restart_options none none) world
      started

-- Both interfaces are connected, the second to a hotspot of an earlier run.
abbrev host : Host
host = record {
  interfaces =
      record { name = codes "wlan0"; connected = true; current_ssid = some (codes "home") }
      ∷ record {
        name = codes "wlan1";
        connected = true;
        current_ssid = some (codes "gnirehtet-0a1b2");
      }
      ∷ [];
  open_aps = λ name. [];
  terminal = true;
  offered_line = none;
  confirmed_line = none;
  start = λ ssid interface. some (codes "gnirehtet-00001");
}

setup_dummy_wifi-AreAllowed_example :
    AreAllowed host false (setup_dummy_wifi host none none false).tried
setup_dummy_wifi-AreAllowed_example = setup_dummy_wifi-AreAllowed host none false
