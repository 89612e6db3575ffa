-- ===== src/Commands/Device.antt =====
-- What the commands about one device keep, whatever adb answers.
use gnirehtet.Base.{ℕ, Bool, true, false, if◌then◌else◌, List, [], ◌∷◌, Option, some, none, leb}
use gnirehtet.Adb.{
  codes, Args, Answer, exited, not_started, CommandExecutionError, Result, World, Run, ok, err,
  ◌>>=◌, ◌>>◌, give, raise, ignoring, create_adb_args, run, checked, exec_adb, outdated_by,
  must_install_client, query_device_sdk, TransportMode, reverse, forward, TransportPreference, auto,
  prefer_reverse, prefer_forward, resolve,
}
use gnirehtet.Commands.{
  ClientOptions, when, register, cmd_uninstall, after_install, cmd_install, cmd_stop, cmd_tunnel,
  grant, grant_runtime_permissions, grant_vpn_permission, effective_serial, disable_portal,
  cmd_start, cmd_restart,
}

-- A run keeps what holds of the world.
pub record Keeps (I : World → Type 0) {A : Type 0} (m : Run A) : Type 0 where
  pub kept : (w : World) → I w → I (m w).0

result-Keeps :
    {A B : Type 0} (I : World → Type 0) (f : A → Run B)
    → ((a : A) → Keeps I (f a))
    → (w : World) (r : Result A) → I w
    → I (((λ v. (w, r)) >>= f) w).0
unfolding ◌>>=◌
result-Keeps I f kf w (ok a) i = (kf a).kept w i
result-Keeps I f kf w (err e) i = i

pub Keeps->>= :
    {A B : Type 0} {I : World → Type 0} {m : Run A} {f : A → Run B}
    → Keeps I m
    → ((a : A) → Keeps I (f a))
    → Keeps I (m >>= f)
unfolding ◌>>=◌
Keeps->>= {I = I} {m = m} {f = f} km kf = record {
  kept = λ w i. result-Keeps I f kf (m w).0 (m w).1 (km.kept w i);
}

pub Keeps->> :
    {A B : Type 0} {I : World → Type 0} {m : Run A} {k : Run B}
    → Keeps I m
    → Keeps I k
    → Keeps I (m >> k)
unfolding ◌>>◌
Keeps->> km kk = Keeps->>= km (λ _. kk)

give-Keeps : {A : Type 0} {I : World → Type 0} (a : A) → Keeps I (give a)
unfolding give
give-Keeps a = record { kept = λ w i. i }

raise-Keeps :
    {A : Type 0} {I : World → Type 0} (e : CommandExecutionError) → Keeps I (raise {A = A} e)
unfolding raise
raise-Keeps e = record { kept = λ w i. i }

ignoring-Keeps : {A : Type 0} {I : World → Type 0} {m : Run A} → Keeps I m → Keeps I (ignoring m)
unfolding ignoring
ignoring-Keeps k = record { kept = k.kept }

pub when-Keeps :
    {I : World → Type 0} {m : Run (Unit {0})} (b : Bool) → Keeps I m → Keeps I (when b m)
unfolding when
when-Keeps true k = k
when-Keeps false k = give-Keeps _

if-Keeps :
    {I : World → Type 0} {m k : Run (Unit {0})} (b : Bool)
    → Keeps I m
    → Keeps I k
    → Keeps I (if b then m else k)
if-Keeps true km kk = km
if-Keeps false km kk = kk

module _ (I : World → Type 0) (adb : List Args → Args → Answer) (serial : Option (List ℕ))
    (logged : (args : Args) (w : World)
      → I w
      → I (record w { log = create_adb_args serial args ∷ w.log })) where
  run-Keeps : (args : Args) → Keeps I (run adb (create_adb_args serial args))
  unfolding run
  run-Keeps args = record { kept = logged args }

  checked-Keeps : (args : Args) (a : Answer) → Keeps I (checked adb args a)
  unfolding checked
  checked-Keeps args (exited true out) = give-Keeps _
  checked-Keeps args (exited false out) = raise-Keeps _
  checked-Keeps args not_started = raise-Keeps _

  pub exec_adb-Keeps : (args : Args) → Keeps I (exec_adb adb serial args)
  unfolding exec_adb
  exec_adb-Keeps args = Keeps->>= (run-Keeps args) (checked-Keeps (create_adb_args serial args))

  outdated_by-Keeps : (args : Args) (a : Answer) → Keeps I (outdated_by adb args a)
  unfolding outdated_by
  outdated_by-Keeps args (exited true out) = give-Keeps _
  outdated_by-Keeps args (exited false out) = raise-Keeps _
  outdated_by-Keeps args not_started = raise-Keeps _

  pub must_install_client-Keeps : Keeps I (must_install_client adb serial)
  unfolding must_install_client
  must_install_client-Keeps = Keeps->>= (run-Keeps _) (outdated_by-Keeps _)

  pub query_device_sdk-Keeps : Keeps I (query_device_sdk adb serial)
  unfolding query_device_sdk
  query_device_sdk-Keeps = Keeps->>= (run-Keeps _) (λ _. give-Keeps _)

  after_install-Keeps :
      (apk : List ℕ) (args : Args) (a : Answer) → Keeps I (after_install adb apk serial args a)
  unfolding after_install cmd_uninstall
  after_install-Keeps apk args (exited true out) = give-Keeps _
  after_install-Keeps apk args (exited false out) =
      Keeps->> (ignoring-Keeps (exec_adb-Keeps _)) (exec_adb-Keeps _)
  after_install-Keeps apk args not_started = raise-Keeps _

  pub cmd_install-Keeps : (apk : List ℕ) → Keeps I (cmd_install adb apk serial)
  unfolding cmd_install
  cmd_install-Keeps apk = Keeps->>= (run-Keeps _) (after_install-Keeps apk _)

  pub cmd_tunnel-Keeps : (port : ℕ) (t : TransportMode) → Keeps I (cmd_tunnel adb serial port t)
  unfolding cmd_tunnel
  cmd_tunnel-Keeps port reverse = exec_adb-Keeps _
  cmd_tunnel-Keeps port forward = Keeps->> (run-Keeps _) (exec_adb-Keeps _)

  grant-Keeps : (perm op : List ℕ) → Keeps I (grant adb serial perm op)
  unfolding grant
  grant-Keeps perm op =
      Keeps->> (ignoring-Keeps (exec_adb-Keeps _)) (ignoring-Keeps (exec_adb-Keeps _))

  pub grant_runtime_permissions-Keeps :
      (sdk : ℕ) → Keeps I (grant_runtime_permissions adb serial sdk)
  unfolding grant_runtime_permissions
  grant_runtime_permissions-Keeps sdk =
      Keeps->> (when-Keeps (leb 23 sdk) (Keeps->> (grant-Keeps _ _) (grant-Keeps _ _)))
        (when-Keeps (leb 33 sdk) (ignoring-Keeps (exec_adb-Keeps _)))

  pub grant_vpn_permission-Keeps : (sdk : ℕ) → Keeps I (grant_vpn_permission adb serial sdk)
  unfolding grant_vpn_permission
  grant_vpn_permission-Keeps sdk = when-Keeps (leb 23 sdk) (ignoring-Keeps (exec_adb-Keeps _))

  pub disable_portal-Keeps : (sdk : ℕ) → Keeps I (disable_portal adb serial sdk)
  unfolding disable_portal
  disable_portal-Keeps sdk =
      if-Keeps (leb 25 sdk) (ignoring-Keeps (exec_adb-Keeps _))
        (when-Keeps (leb 19 sdk) (ignoring-Keeps (exec_adb-Keeps _)))

  resolve-Keeps : (p : TransportPreference) → Keeps I (resolve adb serial p)
  unfolding resolve
  resolve-Keeps prefer_reverse = give-Keeps _
  resolve-Keeps prefer_forward = give-Keeps _
  resolve-Keeps auto = Keeps->>= query_device_sdk-Keeps (λ _. give-Keeps _)

  cmd_start-Keeps :
      (apk : List ℕ) (now : ℕ)
      → Keeps I (effective_serial adb serial)
      → ((known : Option (List ℕ)) → Keeps I (register now known))
      → (port : ℕ) (t : TransportMode) (o : ClientOptions)
      → Keeps I (cmd_start adb apk now serial port t o)
  unfolding cmd_start
  cmd_start-Keeps apk now found registered port t o =
      Keeps->>= must_install_client-Keeps (λ missing.
        Keeps->> (when-Keeps missing (cmd_install-Keeps apk)) (
          Keeps->>= query_device_sdk-Keeps (λ answer. Keeps->> (grant_runtime_permissions-Keeps _) (
            Keeps->> (grant_vpn_permission-Keeps _) (
              Keeps->>= found (λ known. Keeps->> (registered known) (
                Keeps->> (cmd_tunnel-Keeps port t)
                  (Keeps->> (disable_portal-Keeps _) (exec_adb-Keeps _)))))))))

-- A command for the device with this serial.
pub data IsFor (serial : List ℕ) : Args → Type 0 where
  addressed : (rest : Args) → IsFor serial (codes "-s" ∷ serial ∷ rest)

abbrev pub AreFor : List ℕ → List Args → Type 0
AreFor serial [] = Unit {0}
AreFor serial (args ∷ log) = IsFor serial args × AreFor serial log

module _ (adb : List Args → Args → Answer) (serial : List ℕ) where
  ForDevice : World → Type 0
  ForDevice w = AreFor serial w.log

  logged_for :
      (args : Args) (w : World)
      → ForDevice w
      → ForDevice (record w { log = create_adb_args (some serial) args ∷ w.log })
  unfolding ForDevice create_adb_args
  logged_for args w h = (addressed args, h)

  effective_serial-Keeps : (I : World → Type 0) → Keeps I (effective_serial adb (some serial))
  unfolding effective_serial
  effective_serial-Keeps I = give-Keeps _

  register-Keeps : (now : ℕ) (known : Option (List ℕ)) → Keeps ForDevice (register now known)
  unfolding register ForDevice
  register-Keeps now none = record { kept = λ w i. i }
  register-Keeps now (some s) = record { kept = λ w i. i }

  -- Whatever adb answers, each command that a restart of the client on one device runs addresses this device.
  pub cmd_restart-AreFor :
      (apk : List ℕ) (now : ℕ) (dns routes : Option (List ℕ)) (port : ℕ) (p : TransportPreference)
      (w : World)
      → AreFor serial w.log
      → AreFor serial (cmd_restart adb apk now (some serial) dns routes port p w).0.log
  unfolding cmd_restart cmd_stop ForDevice
  cmd_restart-AreFor apk now dns routes port p =
      (Keeps->>= (resolve-Keeps ForDevice adb (some serial) logged_for p) (λ t.
        Keeps->> (exec_adb-Keeps ForDevice adb (some serial) logged_for _) (
          cmd_start-Keeps ForDevice adb (some serial) logged_for apk now
            (effective_serial-Keeps ForDevice) (register-Keeps now) port t _))).kept
