-- ===== src/Commands/Extras.antt =====
-- relay-rust/src/commands.rs: what the start of the client passes to it.
use gnirehtet.Base.{ℕ, Bool, List, [], ◌∷◌, ◌++◌, Option, none, some, leb, if◌then◌else◌}
use gnirehtet.Text.Numbers
use gnirehtet.Adb.{codes, Args}

abbrev pub activity : List ℕ
activity = codes "com.genymobile.gnirehtet/.GnirehtetActivity"

abbrev pub join_comma : Args → List ℕ
join_comma [] = []
join_comma (a ∷ []) = a
join_comma (a ∷ b ∷ more) = a ++ (44 ∷ join_comma (b ∷ more))

-- The options of `cmd_start` that go to the client.
pub record ClientOptions : Type 0 where
  pub dns_servers : Option (List ℕ)
  pub routes : Option (List ℕ)
  pub proxy : Option (List ℕ)
  pub proxy_exclusions : Option (List ℕ)
  pub mtu : ℕ
  pub allow_apps : Args
  pub deny_apps : Args
  pub socks5 : Option (List ℕ)
  pub dummy_wifi_ssid : Option (List ℕ)

-- An extra of a kind, if there is a value.
unfoldable pub extra : List ℕ → List ℕ → Option (List ℕ) → Args
extra kind name none = []
extra kind name (some value) = kind ∷ name ∷ value ∷ []

-- An array extra, which the client's platform has to support.
unfoldable pub array_extra : Bool → List ℕ → Option (List ℕ) → Args
unfolding extra
array_extra supported name value = if supported then extra (codes "--esa") name value else []

abbrev pub joined : Args → Option (List ℕ)
joined [] = none
joined (a ∷ more) = some (join_comma (a ∷ more))

-- The command that starts the client.
unfoldable pub start_args : ℕ → ClientOptions → Args
unfolding array_extra
start_args sdk o =
    let arrays = leb 21 sdk in
    (codes "shell"
      ∷ codes "am"
      ∷ codes "start"
      ∷ codes "-a"
      ∷ codes "com.genymobile.gnirehtet.START"
      ∷ codes "-n"
      ∷ activity
      ∷ [])
    ++ (array_extra arrays (codes "dnsServers") o.dns_servers
        ++ (array_extra arrays (codes "routes") o.routes
            ++ (extra (codes "--es") (codes "proxyHostPort") o.proxy
                ++ (array_extra arrays (codes "proxyExclusionList") o.proxy_exclusions
                    ++ (extra (codes "--es") (codes "socks5Proxy") o.socks5
                        ++ (extra (codes "--es") (codes "dummyWifiSsid") o.dummy_wifi_ssid
                            ++ ((codes "--ei" ∷ codes "mtu" ∷ Numbers.print_u16 o.mtu ∷ [])
                                ++ (array_extra arrays (codes "allowApps") (joined o.allow_apps)
                                    ++ array_extra arrays (codes "denyApps")
                                        (joined o.deny_apps)))))))))

abbrev pub restart_options : Option (List ℕ) → Option (List ℕ) → ClientOptions
restart_options dns routes = record {
  dns_servers = dns;
  routes = routes;
  proxy = none;
  proxy_exclusions = none;
  mtu = 0x4000;
  allow_apps = [];
  deny_apps = [];
  socks5 = none;
  dummy_wifi_ssid = none;
}
