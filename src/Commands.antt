-- ===== src/Commands.antt =====
-- relay-rust/src/commands.rs: what the commands about one device ask adb to do. Pauses, the choice of the adb binary and
-- messages are left out.
pub mod Extras
pub mod Device
pub mod Pending
use gnirehtet.Base.{
  ℕ, ◌+◌, Bool, true, false, not, ◌||◌, ◌&&◌, List, [], ◌∷◌, ◌++◌, Option, none, some, ltb, leb,
  if◌then◌else◌,
}
pub use gnirehtet.Commands.Extras.{ClientOptions, activity, start_args, restart_options}
use gnirehtet.Text
use gnirehtet.Text.Numbers
use gnirehtet.AdbMonitor.{device_of, filter_map}
use gnirehtet.SerialRegistry
use gnirehtet.Adb.{
  codes, Args, Answer, exited, not_started, process_status, process_io, World, Run, ok, err, ◌>>=◌,
  ◌>>◌, give, raise, ignoring, create_adb_args, run, checked, exec_adb, must_install_client,
  query_device_sdk, TransportMode, reverse, forward, TransportPreference, resolve,
}

abbrev pub gnirehtet_pkg : List ℕ
gnirehtet_pkg = codes "com.genymobile.gnirehtet"

unfoldable pub port_spec : ℕ → List ℕ
port_spec port = codes "tcp:" ++ Numbers.print_u16 port

unfoldable pub when : Bool → Run (Unit {0}) → Run (Unit {0})
when true m = m
when false m = give tt

-- The serials that `adb devices` lists; its first line is a title.
unfoldable pub listed_devices : List ℕ → Args
listed_devices out =
    filter_map (λ l. device_of (Text.split_whitespace l)) (Text.skip_line (Text.lines out))

unfoldable pub only_one : Args → Option (List ℕ)
only_one [] = none
only_one (serial ∷ []) = some serial
only_one (serial ∷ _ ∷ _) = none

unfoldable pub only_device : Answer → Option (List ℕ)
unfolding only_one listed_devices
only_device (exited true out) = only_one (listed_devices out)
only_device (exited false out) = none
only_device not_started = none

unfoldable pub register : ℕ → Option (List ℕ) → Run (Unit {0})
register now none w = (w, ok tt)
register now (some serial) w =
    (record w { registry = SerialRegistry.register_pending now serial w.registry }, ok tt)

abbrev or_zero : Option ℕ → ℕ
or_zero none = 0
or_zero (some n) = n

module _ (adb : List Args → Args → Answer) where
  unfoldable pub cmd_uninstall : Option (List ℕ) → Run (Unit {0})
  cmd_uninstall serial = exec_adb adb serial (codes "uninstall" ∷ gnirehtet_pkg ∷ [])

  -- A failed installation is tried again after the client was removed.
  unfoldable pub after_install : List ℕ → Option (List ℕ) → Args → Answer → Run (Unit {0})
  after_install apk serial args (exited true out) = give tt
  after_install apk serial args (exited false out) =
      ignoring (cmd_uninstall serial) >> exec_adb adb serial (codes "install" ∷ apk ∷ [])
  after_install apk serial args not_started = raise (process_io args)

  unfoldable pub cmd_install : List ℕ → Option (List ℕ) → Run (Unit {0})
  unfolding after_install
  cmd_install apk serial =
      let args = create_adb_args serial (codes "install" ∷ codes "-r" ∷ apk ∷ []) in
      run adb args >>= after_install apk serial args

  unfoldable pub cmd_reinstall : List ℕ → Option (List ℕ) → Run (Unit {0})
  cmd_reinstall apk serial = cmd_uninstall serial >> cmd_install apk serial

  unfoldable pub cmd_stop : Option (List ℕ) → Run (Unit {0})
  cmd_stop serial = exec_adb adb serial (
      codes "shell"
      ∷ codes "am"
      ∷ codes "start"
      ∷ codes "-a"
      ∷ codes "com.genymobile.gnirehtet.STOP"
      ∷ codes "-n"
      ∷ activity
      ∷ [])

  unfoldable pub cmd_tunnel : Option (List ℕ) → ℕ → TransportMode → Run (Unit {0})
  unfolding port_spec
  cmd_tunnel serial port reverse =
      exec_adb adb serial (codes "reverse" ∷ codes "localabstract:gnirehtet" ∷ port_spec port ∷ [])
  cmd_tunnel serial port forward =
      run adb (create_adb_args serial (codes "forward" ∷ codes "--remove" ∷ port_spec port ∷ []))
      >> exec_adb adb serial (codes "forward" ∷ port_spec port ∷ port_spec port ∷ [])

  -- One runtime permission, for the package and for its user id.
  unfoldable pub grant : Option (List ℕ) → List ℕ → List ℕ → Run (Unit {0})
  grant serial perm op =
      ignoring (
        exec_adb adb serial
          (codes "shell" ∷ codes "pm" ∷ codes "grant" ∷ gnirehtet_pkg ∷ perm ∷ []))
      >> ignoring (
          exec_adb adb serial (
            codes "shell"
            ∷ codes "appops"
            ∷ codes "set"
            ∷ codes "--uid"
            ∷ gnirehtet_pkg
            ∷ op
            ∷ codes "allow"
            ∷ []))

  unfoldable pub grant_runtime_permissions : Option (List ℕ) → ℕ → Run (Unit {0})
  unfolding grant
  grant_runtime_permissions serial sdk =
      when (leb 23 sdk) (
        grant serial (codes "android.permission.ACCESS_FINE_LOCATION") (codes "FINE_LOCATION")
        >> grant serial (codes "android.permission.ACCESS_COARSE_LOCATION")
            (codes "COARSE_LOCATION"))
      >> when (leb 33 sdk) (
          ignoring (
            exec_adb adb serial (
              codes "shell"
              ∷ codes "pm"
              ∷ codes "grant"
              ∷ gnirehtet_pkg
              ∷ codes "android.permission.POST_NOTIFICATIONS"
              ∷ [])))

  unfoldable pub grant_vpn_permission : Option (List ℕ) → ℕ → Run (Unit {0})
  grant_vpn_permission serial sdk = when (leb 23 sdk) (
      ignoring (
        exec_adb adb serial (
          codes "shell"
          ∷ codes "appops"
          ∷ codes "set"
          ∷ gnirehtet_pkg
          ∷ codes "ACTIVATE_VPN"
          ∷ codes "allow"
          ∷ [])))

  unfoldable pub effective_serial : Option (List ℕ) → Run (Option (List ℕ))
  unfolding only_device
  effective_serial (some serial) = give (some serial)
  effective_serial none = run adb (codes "devices" ∷ []) >>= λ answer. give (only_device answer)

  unfoldable pub disable_portal : Option (List ℕ) → ℕ → Run (Unit {0})
  disable_portal serial sdk =
      let put = λ (name : List ℕ). ignoring (
        exec_adb adb serial (
          codes "shell"
          ∷ codes "settings"
          ∷ codes "put"
          ∷ codes "global"
          ∷ name
          ∷ codes "0"
          ∷ [])) in
      if leb 25 sdk
      then put (codes "captive_portal_mode")
      else when (leb 19 sdk) (put (codes "captive_portal_detection_enabled"))

  -- `cmd_start`, where `now` is the instant at which the serial is registered.
  unfoldable pub cmd_start :
      List ℕ → ℕ → Option (List ℕ) → ℕ → TransportMode → ClientOptions → Run (Unit {0})
  unfolding disable_portal register
  cmd_start apk now serial port transport o = do
    missing ← must_install_client adb serial
    when missing (cmd_install apk serial)
    answer ← query_device_sdk adb serial
    let sdk = or_zero answer
    grant_runtime_permissions serial sdk
    grant_vpn_permission serial sdk
    known ← effective_serial serial
    register now known
    cmd_tunnel serial port transport
    disable_portal serial sdk
    exec_adb adb serial (start_args sdk o)

  unfoldable pub cmd_restart :
      List ℕ
      → ℕ
      → Option (List ℕ)
      → Option (List ℕ)
      → Option (List ℕ)
      → ℕ
      → TransportPreference
      → Run (Unit {0})
  cmd_restart apk now serial dns routes port preference = do
    transport ← resolve adb serial preference
    cmd_stop serial
    cmd_start apk now serial port transport (restart_options dns routes)

  -- The loop over the devices at the end of `cmd_autorun`; the errors are dropped.
  unfoldable pub stop_all : Args → Run (Unit {0})
  stop_all [] = give tt
  stop_all (serial ∷ more) = ignoring (cmd_stop (some serial)) >> stop_all more

  unfoldable pub stopping : Answer → Run (Unit {0})
  unfolding stop_all listed_devices
  stopping (exited true out) = stop_all (listed_devices out)
  stopping (exited false out) = give tt
  stopping not_started = give tt

  unfoldable pub stop_all_connected_devices : Run (Unit {0})
  unfolding stopping
  stop_all_connected_devices = run adb (codes "devices" ∷ []) >>= stopping
