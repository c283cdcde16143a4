-- ===== src/Main/Run.antt =====
-- main.go: `run`, from the flags to the exit status.
--
-- The flags are those of kingpin. The configuration's reading, the host's name, the parsing of URLs,
-- `path.Join` and the patterns that other packages have registered with the mux are arguments. A list
-- of listen addresses that is empty is an index out of range. The versions and the messages of the
-- logger are left out.
use big_blackbox_exporter.Base.{
  ℕ, ◌≡◌, ◌≢◌, ◌⊎◌, refl, Bool, true, false, ◌&&◌, List, [], ◌∷◌, String, Option, some, none,
  str_eq, arith, if◌then◌else◌, Bool-cases, inl, inr,
}
use big_blackbox_exporter.Base.Int.{ℤ}
use big_blackbox_exporter.Config.{Config}
use big_blackbox_exporter.Config.Unmarshal.{Result as Loaded}
use big_blackbox_exporter.Main.Url.{Url, UrlEnv, compute_external_url, route_prefix}
use big_blackbox_exporter.Main.Routes.{routes, Joins}
use big_blackbox_exporter.Main.Mux.{register, clashes, register-routes}
use big_blackbox_exporter.Main.Exporter.{Exporter, start}

pub record Flags : Type 0 where
  pub config_check : Bool
  pub history_limit : ℕ
  pub external_url : String
  pub route_prefix : String
  pub web_systemd_socket : Bool
  pub listen_addresses : List String

-- How the start ends: with an exit status, in a panic, or with what is served.
pub data Setup (Rest : Type 0) : Type 0 where
  exited : (status : ℕ) → Setup Rest
  crashed : Setup Rest
  serving : Exporter → Url Rest → (prefix : String) → Setup Rest

-- What ends the loop at the end of `run`: a signal to terminate, or the HTTP server's error.
pub data Ending : Type 0 where
  term srvc : Ending

module _ {Rest : Type 0} (env : UrlEnv Rest) (join : String → String → String) (mux : List String)
    (flags : Flags) where
  -- The registration of the endpoints, where none is a panic.
  abbrev pub registered :
      Exporter → Url Rest → (prefix : String) → Option (List String) → Setup Rest
  registered e url prefix none = crashed
  registered e url prefix (some mux') = serving e url prefix

  abbrev pub with_external_url : Exporter → Option (Url Rest) → Setup Rest
  with_external_url e none = exited 1
  with_external_url e (some url) =
      let prefix = route_prefix flags.route_prefix url.path in
      registered e url prefix (register mux (routes join prefix))

  abbrev pub with_listen_addresses : Exporter → List String → Setup Rest
  with_listen_addresses e [] = crashed
  with_listen_addresses e (address ∷ _) =
      with_external_url e (compute_external_url env flags.external_url address)

  abbrev pub infer_url : Exporter → Setup Rest
  infer_url e =
      if str_eq flags.external_url "" && flags.web_systemd_socket
      then exited 1
      else with_listen_addresses e flags.listen_addresses

  -- What follows the first reading of the configuration, which is none where it fails.
  abbrev pub with_config : Option Exporter → Setup Rest
  with_config none = exited 1
  with_config (some e) = if flags.config_check then exited 0 else infer_url e

  unfoldable pub setup :
      Loaded Config → (now zero_time : ℤ) → (module_unknown : Option ℕ) → Setup Rest
  unfolding start compute_external_url route_prefix routes register
  setup loaded now zero_time module_unknown =
      with_config (start loaded now zero_time flags.history_limit module_unknown)

-- The status of the process that was set up; none is a panic.
unfoldable pub exit_status : {Rest : Type 0} → Setup Rest → Ending → Option ℕ
exit_status (exited status) ending = some status
exit_status crashed ending = none
exit_status (serving e url prefix) term = some 0
exit_status (serving e url prefix) srvc = some 1

module _ {Rest : Type 0} (env : UrlEnv Rest) (join : String → String → String) (mux : List String)
    (flags : Flags) (loaded : Loaded Config) (now zero_time : ℤ) (module_unknown : Option ℕ) where
  abbrev pub started : Option Exporter
  started = start loaded now zero_time flags.history_limit module_unknown

  -- The exporter is served with the configuration that was loaded, under a URL that was computed
  -- from the first address.
  pub record IsServing (e : Exporter) (url : Url Rest) (prefix : String) : Type 0 where
    pub loads : started ≡ some e
    pub no_check : flags.config_check ≡ false
    pub has_url : (str_eq flags.external_url "" && flags.web_systemd_socket) ≡ false
    pub address : String
    pub others : List String
    pub listens : flags.listen_addresses ≡ address ∷ others
    pub computed : compute_external_url env flags.external_url address ≡ some url
    pub prefixed : prefix ≡ route_prefix flags.route_prefix url.path
    pub free : clashes mux (routes join prefix) ≡ false

  -- Why the process ends before it serves.
  pub data Refused : Type 0 where
    not_loaded : started ≡ none → Refused
    no_socket_url :
        flags.config_check ≡ false
        → str_eq flags.external_url "" ≡ true
        → flags.web_systemd_socket ≡ true
        → Refused
    bad_url :
        flags.config_check ≡ false
        → (address : String) → (others : List String) → flags.listen_addresses ≡ address ∷ others
        → compute_external_url env flags.external_url address ≡ none
        → Refused

  -- Why the process ends in a panic before it serves.
  pub data Panicked : Type 0 where
    no_address : flags.config_check ≡ false → flags.listen_addresses ≡ [] → Panicked
    clashing :
        flags.config_check ≡ false
        → (address : String) → (others : List String) → flags.listen_addresses ≡ address ∷ others
        → (url : Url Rest) → compute_external_url env flags.external_url address ≡ some url
        → clashes mux (routes join (route_prefix flags.route_prefix url.path)) ≡ true
        → Panicked

  abbrev pub SetupOf : Setup Rest → Type 0
  SetupOf (exited status) =
      ((status ≡ 0) × (started ≢ none) × (flags.config_check ≡ true)) ⊎ ((status ≡ 1) × Refused)
  SetupOf crashed = Panicked
  SetupOf (serving e url prefix) = IsServing e url prefix

  module _ (joins : Joins join) where
    with_external_url-SetupOf :
        (e : Exporter)
        → started ≡ some e
        → flags.config_check ≡ false
        → (str_eq flags.external_url "" && flags.web_systemd_socket) ≡ false
        → (address : String) → (others : List String) → flags.listen_addresses ≡ address ∷ others
        → (o : Option (Url Rest)) → compute_external_url env flags.external_url address ≡ o
        → SetupOf (with_external_url env join mux flags e o)
    with_external_url-SetupOf e loads no_check has_url address others listens none bad =
        inr (refl, bad_url no_check address others listens bad)
    with_external_url-SetupOf e loads no_check has_url address others listens (some url) computed =
        let prefix = route_prefix flags.route_prefix url.path in
        elim (Bool-cases (clashes mux (routes join prefix))) [
          | inl clash ↦
              rw (register-routes join mux flags.route_prefix url.path joins, clash)
                (clashing no_check address others listens url computed clash)
          | inr free ↦
              rw (register-routes join mux flags.route_prefix url.path joins, free)
                (record {
                  loads = loads;
                  no_check = no_check;
                  has_url = has_url;
                  address = address;
                  others = others;
                  listens = listens;
                  computed = computed;
                  prefixed = refl;
                  free = free;
                })
        ]

    with_listen_addresses-SetupOf :
        (e : Exporter)
        → started ≡ some e
        → flags.config_check ≡ false
        → (str_eq flags.external_url "" && flags.web_systemd_socket) ≡ false
        → (addresses : List String) → flags.listen_addresses ≡ addresses
        → SetupOf (with_listen_addresses env join mux flags e addresses)
    with_listen_addresses-SetupOf e loads no_check has_url [] listens = no_address no_check listens
    with_listen_addresses-SetupOf e loads no_check has_url (address ∷ others) listens =
        with_external_url-SetupOf e loads no_check has_url address others listens _ refl

    infer_url-SetupOf :
        (e : Exporter)
        → started ≡ some e
        → flags.config_check ≡ false
        → SetupOf (infer_url env join mux flags e)
    infer_url-SetupOf e loads no_check =
        elim (Bool-cases (str_eq flags.external_url "" && flags.web_systemd_socket)) [
          | inl socket ↦
              rw socket (inr (refl, no_socket_url no_check (ground arith) (ground arith)))
          | inr has_url ↦ rw has_url (with_listen_addresses-SetupOf e loads no_check has_url _ refl)
        ]

    checked-SetupOf :
        (e : Exporter)
        → started ≡ some e
        → (check : Bool) → flags.config_check ≡ check
        → SetupOf (if check then exited 0 else infer_url env join mux flags e)
    checked-SetupOf e loads true check = inl (refl, (λ none. cc), check)
    checked-SetupOf e loads false no_check = infer_url-SetupOf e loads no_check

    with_config-SetupOf :
        (o : Option Exporter) → started ≡ o → SetupOf (with_config env join mux flags o)
    with_config-SetupOf none failed = inr (refl, not_loaded failed)
    with_config-SetupOf (some e) loads = checked-SetupOf e loads _ refl

    -- `run` up to the HTTP server, with the registration of its endpoints. It exits with 0 only where the configuration has been loaded and
    -- its check is asked for. It exits with 1 only where the configuration is not loaded, or where
    -- no check is asked for and a URL would have to be inferred from a systemd socket, or none can
    -- be computed; it exits with no other status. There is a panic only without a listen address,
    -- or where the pattern of an endpoint was registered by another package before. Otherwise the
    -- exporter serves what was loaded, with the URL that was computed from the first address, and under
    -- the prefix of the routes, and no endpoint's pattern was registered before. Assumed of `path.Join`
    -- is that a path joined from a prefix and an endpoint ends with the endpoint.
    pub setup-SetupOf : SetupOf (setup env join mux flags loaded now zero_time module_unknown)
    unfolding setup
    setup-SetupOf = with_config-SetupOf _ refl

    -- The process exits with 0 only where the configuration was loaded and its check was asked for,
    -- or where it has served the configuration that was loaded until a signal came.
    pub exit_status-zero :
        (ending : Ending)
        → exit_status (setup env join mux flags loaded now zero_time module_unknown) ending ≡ some 0
        → ((started ≢ none) × (flags.config_check ≡ true))
          ⊎ ((ending ≡ term)
              × (e : Exporter) × (url : Url Rest) × (prefix : String) × IsServing e url prefix)
    unfolding exit_status
    exit_status-zero ending = checked _ ending setup-SetupOf
      where
        checked :
            (o : Setup Rest) (ending : Ending)
            → SetupOf o
            → exit_status o ending ≡ some 0
            → ((started ≢ none) × (flags.config_check ≡ true))
              ⊎ ((ending ≡ term)
                  × (e : Exporter) × (url : Url Rest) × (prefix : String) × IsServing e url prefix)
        checked (exited status) ending (inl (zero, loads, check)) h = inl (loads, check)
        checked (exited status) ending (inr (one, refused)) h = absurd (ground arith)
        checked crashed ending o h = absurd cc
        checked (serving e url prefix) term o h = inr (refl, e, url, prefix, o)
        checked (serving e url prefix) srvc o h = absurd (ground arith)
