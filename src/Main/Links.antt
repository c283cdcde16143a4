-- ===== src/Main/Links.antt =====
-- What holds in every state of a run, and the links of the front page.
use mathlib.Core.List.{Memᴰ}
use mathlib.Core.List.Memᴰ.{not-nil}
use big_blackbox_exporter.Base.{
  ℕ, ◌≤◌, ◌^◌, ◌≡◌, refl, sym, ap, ◌∙◌, ◌⊎◌, List, [], ◌∷◌, ◌++◌, String, some, arith, length, inl,
  inr,
}
use big_blackbox_exporter.Base.Int.{ℤ, pos}
use big_blackbox_exporter.Float64.{Float64}
use big_blackbox_exporter.Config.{Config}
use big_blackbox_exporter.Config.Unmarshal.{Result as Loaded}
use big_blackbox_exporter.Config.Reload.{new_safe_config, SafeConfig}
use big_blackbox_exporter.Config.Reload.Latest.{latest, reload_all-latest}
use big_blackbox_exporter.History.{Result, ResultHistory, list, get_by_id}
use big_blackbox_exporter.History.Refinement.{Entry, trace, Represents, add_all-Represents}
use big_blackbox_exporter.History.Lookup.{
  Ascends-lt, Ascends-trace, Represents-Ascends, get_by_id-list,
}
use big_blackbox_exporter.Main.Pages.{Row, plain, row, rows, output_of, logs}
use big_blackbox_exporter.Main.Exporter.{Exporter}
use big_blackbox_exporter.Main.Reachable.{Reachable, results_on, Reachable-IsMade}

module _ (history_limit : ℕ) where
  -- The configuration is the last one that could be loaded, and the history the window over these
  -- results, which are at most so many.
  pub record IsCurrent (loads : List (Loaded Config × ℤ)) (n : ℕ) (entries : List Entry)
      (e : Exporter) : Type 0 where
    pub zero_time : ℤ
    pub current : e.sc.config ≡ (latest ((new_safe_config zero_time).config, zero_time) loads).0
    pub few : length entries ≤ n
    pub history : Represents history_limit e.served_state.history (trace (pos 0) entries)

module _ (fl : Float64) (history_limit : ℕ) where
  -- In every state that the exporter gets to by signals and requests, in any order and with probes
  -- that panic among them, the configuration in use is the last one that could be loaded, at the
  -- start or by a reload, and of the results of all probes that were run on the way, one for each
  -- request of /probe that is not refused and whose probe does not panic, the history holds the
  -- newest and of the older ones the newest failures, both up to the limit.
  pub Reachable-IsCurrent :
      (loads : List (Loaded Config × ℤ)) (n : ℕ) (e : Exporter)
      → (reached : Reachable fl history_limit loads n e)
      → IsCurrent history_limit loads n (results_on fl history_limit loads n e reached) e
  Reachable-IsCurrent loads n e reached =
      let made = Reachable-IsMade fl history_limit loads n e reached in
      record {
        zero_time = made.zero_time;
        current =
            ap (λ (sc : SafeConfig). sc.config) made.loaded
            ∙ (reload_all-latest loads (new_safe_config made.zero_time)).0;
        few = made.few;
        history =
            rw (made.recorded)
              (add_all-Represents history_limit (results_on fl history_limit loads n e reached));
      }

concat_cases : {A : Type 0} (x y : A) (ys : List A) → Memᴰ x (ys ++ y ∷ []) → Memᴰ x ys ⊎ (x ≡ y)
concat_cases x y [] (Memᴰ.head same) = inr same
concat_cases x y [] (Memᴰ.tail m) = absurd (not-nil m)
concat_cases x y (z ∷ ys) (Memᴰ.head same) = inl (Memᴰ.head same)
concat_cases x y (z ∷ ys) (Memᴰ.tail m) = elim (concat_cases x y ys m) [
  | inl before ↦ inl (Memᴰ.tail before)
  | inr last ↦ inr last
]

rows_all :
    (escape : String → String) (results : List Result) (x : Row)
    → Memᴰ x (rows escape results)
    → (r : Result) × Memᴰ r results × (x ≡ row escape r)
unfolding rows
rows_all escape [] x m = absurd (not-nil m)
rows_all escape (r ∷ results) x m = elim (concat_cases x (row escape r) (rows escape results) m) [
  | inl before ↦
      let (s, among, same) = rows_all escape results x before in (s, Memᴰ.tail among, same)
  | inr last ↦ (r, Memᴰ.head refl, last)
]

logs-found :
    (rh : ResultHistory) (r : Result) (k : ℕ)
    → r.id ≡ pos k
    → get_by_id r.id rh ≡ some r
    → logs (some r.id) "" rh ≡ plain 200 r.debug_output
unfolding logs
logs-found rh r k not_negative found =
    ap (λ id. logs (some id) "" rh) not_negative
    ∙ ap (output_of "Probe id not found") (ap (λ id. get_by_id id rh) (sym not_negative) ∙ found)

module _ (fl : Float64) (history_limit : ℕ) where
  -- In every state that the exporter gets to by at most 2 ^ 63 events, each row of the front page is
  -- that of a result in the history, and the row's link to /logs is answered with the debug output of
  -- that result: no link leads to nothing or to another probe.
  pub logs-row :
      (loads : List (Loaded Config × ℤ)) (n : ℕ) (e : Exporter) (escape : String → String) (x : Row)
      → Reachable fl history_limit loads n e
      → n ≤ 2 ^ 63
      → Memᴰ x (rows escape (list e.served_state.history))
      → (r : Result) × Memᴰ r (list e.served_state.history)
        × (x ≡ row escape r)
        × (logs (some x.id) "" e.served_state.history ≡ plain 200 r.debug_output)
  logs-row loads n e escape x reached h m =
      let made = Reachable-IsMade fl history_limit loads n e reached in
      let (r, among, same) = rows_all escape (list e.served_state.history) x m in
      let entries = results_on fl history_limit loads n e reached in
      let few : length entries ≤ n = made.few in
      let held = add_all-Represents history_limit entries in
      let among' = rw made.recorded at among in
      let (k, not_negative, low) =
        Ascends-lt 0 r _
          (Represents-Ascends history_limit _ _ held (Ascends-trace 0 entries (omega arith)))
          among' in
      let found = get_by_id-list history_limit entries r (omega arith) among' in
      (
        r,
        among,
        same,
        rw same (logs-found e.served_state.history r k not_negative (rw made.recorded found)),
      )
