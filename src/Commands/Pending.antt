-- ===== src/Commands/Pending.antt =====
-- When the start of the client registers the device's serial.
use gnirehtet.Base.{ℕ, ◌≡◌, refl, ap, List, ◌∷◌, some}
use gnirehtet.SerialRegistry
use gnirehtet.SerialRegistry.{PendingEntry}
use gnirehtet.Adb.{
  Args, Answer, Result, World, Run, ok, err, ◌>>=◌, ◌>>◌, give, create_adb_args, TransportMode,
}
use gnirehtet.Commands.{ClientOptions, register, effective_serial, cmd_start}
use gnirehtet.Commands.Device.{
  Keeps, Keeps->>, when-Keeps, must_install_client-Keeps, query_device_sdk-Keeps, cmd_install-Keeps,
  cmd_tunnel-Keeps, grant_runtime_permissions-Keeps, grant_vpn_permission-Keeps,
  disable_portal-Keeps, exec_adb-Keeps,
}

abbrev Waiting : List PendingEntry → World → Type 0
Waiting entries w = w.registry ≡ entries

-- From a world with the first entries, a run that succeeds ends in one with the others.
record Leads (from into : List PendingEntry) {A : Type 0} (m : Run A) : Type 0 where
  led : (w : World) (a : A) → w.registry ≡ from → (m w).1 ≡ ok a → (m w).0.registry ≡ into

module _ {from into : List PendingEntry} where
  result-Leads :
      {A B : Type 0} (f : A → Run B) (b : B)
      → ((a : A) → Leads from into (f a))
      → (w : World) (r : Result A) → w.registry ≡ from
      → (((λ v. (w, r)) >>= f) w).1 ≡ ok b
      → (((λ v. (w, r)) >>= f) w).0.registry ≡ into
  unfolding ◌>>=◌
  result-Leads f b lf w (ok a) i e = (lf a).led w b i e
  result-Leads f b lf w (err x) i e = cc

  Leads->>= :
      {A B : Type 0} {m : Run A} {f : A → Run B}
      → Keeps (Waiting from) m
      → ((a : A) → Leads from into (f a))
      → Leads from into (m >>= f)
  unfolding ◌>>=◌
  Leads->>= {m = m} {f = f} km lf = record {
    led = λ w b i e. result-Leads f b lf (m w).0 (m w).1 (km.kept w i) e;
  }

  Leads->> :
      {A B : Type 0} {m : Run A} {k : Run B}
      → Keeps (Waiting from) m
      → Leads from into k
      → Leads from into (m >> k)
  unfolding ◌>>◌
  Leads->> km lk = Leads->>= km (λ _. lk)

register-Leads :
    {B : Type 0} (now : ℕ) (serial : List ℕ) (entries : List PendingEntry) {k : Run B}
    → Keeps (Waiting (SerialRegistry.register_pending now serial entries)) k
    → Leads entries
        (SerialRegistry.register_pending now serial entries)
        (register now (some serial) >> k)
unfolding ◌>>◌ ◌>>=◌ register
register-Leads now serial entries kk = record {
  led = λ w b i e.
      kk.kept (record w { registry = SerialRegistry.register_pending now serial w.registry })
        (ap (SerialRegistry.register_pending now serial) i);
}

give-Leads :
    {A B : Type 0} {from into : List PendingEntry} (a : A) (f : A → Run B)
    → Leads from into (f a)
    → Leads from into (give a >>= f)
unfolding ◌>>=◌ give
give-Leads a f l = record { led = l.led }

module _ (adb : List Args → Args → Answer) (serial : List ℕ) where
  unlogged :
      (entries : List PendingEntry) (args : Args) (w : World)
      → Waiting entries w
      → Waiting entries (record w { log = create_adb_args (some serial) args ∷ w.log })
  unlogged entries args w i = i

  cmd_start-Leads :
      (apk : List ℕ) (now port : ℕ) (t : TransportMode) (o : ClientOptions)
      (entries : List PendingEntry)
      → Leads entries
          (SerialRegistry.register_pending now serial entries)
          (cmd_start adb apk now (some serial) port t o)
  unfolding cmd_start effective_serial
  cmd_start-Leads apk now port t o entries =
      let I = Waiting entries in
      let into = SerialRegistry.register_pending now serial entries in
      let J = Waiting into in
      let before = unlogged entries in
      let after = unlogged into in
      Leads->>= (must_install_client-Keeps I adb (some serial) before) (λ missing.
        Leads->> (when-Keeps missing (cmd_install-Keeps I adb (some serial) before apk)) (
          Leads->>= (query_device_sdk-Keeps I adb (some serial) before) (λ answer.
            Leads->> (grant_runtime_permissions-Keeps I adb (some serial) before _) (
              Leads->> (grant_vpn_permission-Keeps I adb (some serial) before _) (
                give-Leads (some serial) _ (
                  register-Leads now serial entries (
                    Keeps->> (cmd_tunnel-Keeps J adb (some serial) after port t) (
                      Keeps->> (disable_portal-Keeps J adb (some serial) after _)
                        (exec_adb-Keeps J adb (some serial) after _)))))))))

  -- A start of the client on one device that succeeds has registered the device's serial, and only it.
  pub cmd_start-register_pending :
      (apk : List ℕ) (now port : ℕ) (t : TransportMode) (o : ClientOptions) (w : World)
      → (cmd_start adb apk now (some serial) port t o w).1 ≡ ok tt
      → (cmd_start adb apk now (some serial) port t o w).0.registry
        ≡ SerialRegistry.register_pending now serial w.registry
  cmd_start-register_pending apk now port t o w e =
      (cmd_start-Leads apk now port t o w.registry).led w tt refl e
