-- ===== src/Main/Reachable.antt =====
-- The states that a run of the exporter gets to.
use big_blackbox_exporter.Base.{
  ℕ, ◌+◌, ◌≤◌, ◌≡◌, refl, sym, ap, ◌∙◌, not, List, [], ◌∷◌, ◌++◌, Option, some, str_eq, arith,
  length, length-append, if◌then◌else◌, Bool-cases, inl, inr,
}
use big_blackbox_exporter.Base.Int.{ℤ}
use big_blackbox_exporter.Base.Dict.{lookup}
use big_blackbox_exporter.Float64.{Float64}
use big_blackbox_exporter.Config.{Config}
use big_blackbox_exporter.Config.Unmarshal.{Result as Loaded, ok}
use big_blackbox_exporter.Config.Reload.{SafeConfig, new_safe_config, reload_config}
use big_blackbox_exporter.Config.Reload.Latest.{reload_all}
use big_blackbox_exporter.History.{ResultHistory, new_history}
use big_blackbox_exporter.History.Refinement.{Entry, add_all}
use big_blackbox_exporter.Handler.{get, Served, served, panicked, or_http_2xx, handler}
use big_blackbox_exporter.Main.Results.{
  Recorded, results_of_module, with_module-Recorded, results_of_module-length,
}
use big_blackbox_exporter.Main.Exporter.{
  Exporter, Event, hang_up, reload_request, probe_request, front_request, root_request,
  logs_request, healthy_request, config_request, start, after_probe, handle,
}

reload_all-concat :
    (rs more : List (Loaded Config × ℤ)) (sc : SafeConfig)
    → reload_all (rs ++ more) sc ≡ reload_all more (reload_all rs sc)
unfolding reload_all
reload_all-concat [] more sc = refl
reload_all-concat ((loaded, now) ∷ rs) more sc = reload_all-concat rs more _

add_all-concat :
    (es more : List Entry) (rh : ResultHistory)
    → add_all (es ++ more) rh ≡ add_all more (add_all es rh)
unfolding add_all
add_all-concat [] more rh = refl
add_all-concat (e ∷ es) more rh = add_all-concat es more _

-- What the event has loaded.
abbrev pub loaded_by : {V : Type 0} → Event V → List (Loaded Config × ℤ)
loaded_by (hang_up loaded now) = (loaded, now) ∷ []
loaded_by (reload_request method loaded now) =
    if not (str_eq method "POST") then [] else (loaded, now) ∷ []
loaded_by _ = []

module _ (fl : Float64) (history_limit : ℕ) where
  open fl use {Num}

  -- The states after a number of events, with what was loaded on the way.
  pub data Reachable : List (Loaded Config × ℤ) → ℕ → Exporter → Type 0 where
    started :
        (c : Config) (now zero_time : ℤ) (module_unknown : Option ℕ) (e : Exporter)
        → start (ok c) now zero_time history_limit module_unknown ≡ some e
        → Reachable ((ok c, now) ∷ []) 0 e
    stepped :
        (loads : List (Loaded Config × ℤ)) (n : ℕ) (e : Exporter) (ev : Event Num)
        → Reachable loads n e
        → Reachable (loads ++ loaded_by ev) (n + 1) (handle fl ev e).0

  -- What the event adds to the results of the probes: for a request of /probe the result of the
  -- probe, with the configuration that is in use.
  abbrev pub results_of : Event Num → Exporter → List Entry
  results_of (probe_request server r) e =
      let module_name = or_http_2xx (get "module" r.query) in
      results_of_module fl (record server { config = e.sc.config }) r r.query module_name
        (lookup module_name e.sc.config.modules)
  results_of _ e = []

  -- The results of all probes on the way, from the oldest to the newest.
  unfoldable pub results_on :
      (loads : List (Loaded Config × ℤ)) (n : ℕ) (e : Exporter) → Reachable loads n e → List Entry
  results_on _ _ _ (started c now zero_time module_unknown e h) = []
  results_on _ _ _ (stepped before k e₀ ev reached) =
      results_on before k e₀ reached ++ results_of ev e₀

  -- The configuration is what the reloads make of the empty one, and the history what these results
  -- make, which are at most so many.
  pub record IsMade (loads : List (Loaded Config × ℤ)) (n : ℕ) (entries : List Entry) (e : Exporter)
      : Type 0 where
    pub zero_time : ℤ
    pub loaded : e.sc ≡ reload_all loads (new_safe_config zero_time)
    pub recorded : e.served_state.history ≡ add_all entries (new_history history_limit)
    pub few : length entries ≤ n

  -- An event that adds these results, after which the configuration is made of the loads.
  made :
      (loads more : List (Loaded Config × ℤ)) (n : ℕ) (es added : List Entry) (e e' : Exporter)
      → (m : IsMade loads n es e) → e'.sc ≡ reload_all (loads ++ more) (new_safe_config m.zero_time)
      → e'.served_state.history ≡ add_all added e.served_state.history
      → length added ≤ 1
      → IsMade (loads ++ more) (n + 1) (es ++ added) e'
  made loads more n es added e e' m loaded recorded one = record {
    zero_time = m.zero_time;
    loaded = loaded;
    recorded =
        recorded
        ∙ ap (add_all added) m.recorded
        ∙ sym (add_all-concat es added (new_history history_limit));
    few = let h : length es ≤ n = m.few in ground (arith, length-append es added);
  }

  -- An event that loads nothing.
  kept :
      (loads : List (Loaded Config × ℤ)) (n : ℕ) (es : List Entry) (e : Exporter)
      → IsMade loads n es e
      → IsMade (loads ++ []) (n + 1) (es ++ []) e
  unfolding reload_all add_all
  kept loads n es e m =
      made loads [] n es [] e e m
        (m.loaded ∙ sym (reload_all-concat loads [] (new_safe_config m.zero_time))) refl
        (omega arith)

  -- One more reload.
  reloaded :
      (loads : List (Loaded Config × ℤ)) (n : ℕ) (es : List Entry) (e : Exporter)
      (l : Loaded Config) (now : ℤ)
      → IsMade loads n es e
      → IsMade
          (loads ++ (l, now) ∷ [])
          (n + 1)
          (es ++ [])
          (record e { sc = (reload_config l now e.sc).0 })
  unfolding reload_all add_all
  reloaded loads n es e l now m =
      made loads ((l, now) ∷ []) n es [] e (record e { sc = (reload_config l now e.sc).0 }) m
        (ap (λ sc. (reload_config l now sc).0) m.loaded
          ∙ sym (reload_all-concat loads ((l, now) ∷ []) (new_safe_config m.zero_time)))
        refl (omega arith)

  -- One more request of /probe.
  probed :
      (loads : List (Loaded Config × ℤ)) (n : ℕ) (es added : List Entry) (e : Exporter)
      (o : Served Num)
      → IsMade loads n es e
      → length added ≤ 1
      → Recorded added e.served_state o
      → IsMade (loads ++ []) (n + 1) (es ++ added) (after_probe fl e o).0
  unfolding reload_all add_all
  probed loads n es added e panicked m one none_added = rw none_added (kept loads n es e m)
  probed loads n es added e (served response st) m one recorded =
      made loads [] n es added e (record e { served_state = st }) m
        (m.loaded ∙ sym (reload_all-concat loads [] (new_safe_config m.zero_time))) recorded one

  handle-IsMade :
      (loads : List (Loaded Config × ℤ)) (n : ℕ) (es : List Entry) (e : Exporter) (ev : Event Num)
      → IsMade loads n es e
      → IsMade (loads ++ loaded_by ev) (n + 1) (es ++ results_of ev e) (handle fl ev e).0
  unfolding handle handler
  handle-IsMade loads n es e (hang_up loaded now) m = reloaded loads n es e loaded now m
  handle-IsMade loads n es e (reload_request method loaded now) m =
      elim (Bool-cases (str_eq method "POST")) [
        | inl post ↦ rw post (reloaded loads n es e loaded now m)
        | inr other ↦ rw other (kept loads n es e m)
      ]
  handle-IsMade loads n es e (probe_request server r) m =
      let module_name = or_http_2xx (get "module" r.query) in
      let s = record server { config = e.sc.config } in
      let o = lookup module_name e.sc.config.modules in
      probed loads n es _ e _ m (results_of_module-length fl s r r.query module_name o)
        (with_module-Recorded fl s r r.query module_name e.served_state o)
  handle-IsMade loads n es e (front_request escape) m = kept loads n es e m
  handle-IsMade loads n es e (root_request external_url path) m = kept loads n es e m
  handle-IsMade loads n es e (logs_request id target) m = kept loads n es e m
  handle-IsMade loads n es e healthy_request m = kept loads n es e m
  handle-IsMade loads n es e (config_request marshal) m = kept loads n es e m

  start-IsMade :
      (c : Config) (now zero_time : ℤ) (module_unknown : Option ℕ) (e : Exporter)
      → start (ok c) now zero_time history_limit module_unknown ≡ some e
      → IsMade ((ok c, now) ∷ []) 0 [] e
  unfolding start reload_config reload_all add_all
  start-IsMade c now zero_time module_unknown e h =
      let same : record {
        sc = (reload_config (ok c) now (new_safe_config zero_time)).0;
        served_state = record {
          history = new_history history_limit;
          module_unknown = module_unknown;
        };
      }
          ≡ e =
        cc in
      rw (← same)
        (record { zero_time = zero_time; loaded = refl; recorded = refl; few = omega arith })

  pub Reachable-IsMade :
      (loads : List (Loaded Config × ℤ)) (n : ℕ) (e : Exporter)
      → (reached : Reachable loads n e) → IsMade loads n (results_on loads n e reached) e
  unfolding results_on
  Reachable-IsMade _ _ _ (started c now zero_time module_unknown e h) =
      start-IsMade c now zero_time module_unknown e h
  Reachable-IsMade _ _ _ (stepped before k e₀ ev reached) =
      handle-IsMade before k _ e₀ ev (Reachable-IsMade before k e₀ reached)
