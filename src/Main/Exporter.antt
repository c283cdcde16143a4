-- ===== src/Main/Exporter.antt =====
-- main.go: `run`, as a state and the events that change it.
--
-- The loop that reloads takes one signal or request at a time, and the locks of the configuration
-- and of the history make what they guard one step, so a run is a sequence of events. The reading of
-- the configuration file at an event and its time are inputs, as is what a probe is answered.
use big_blackbox_exporter.Base.{ℕ, String, Option, some, none}
use big_blackbox_exporter.Base.Int.{ℤ}
use big_blackbox_exporter.Float64.{Float64}
use big_blackbox_exporter.Config.{Config}
use big_blackbox_exporter.Config.Unmarshal.{Result as Loaded}
use big_blackbox_exporter.Config.Reload.{SafeConfig, new_safe_config, reload_config}
use big_blackbox_exporter.History.{new_history}
use big_blackbox_exporter.Handler.{
  Request, State, Response, Served, served, panicked, Server, handler,
}
use big_blackbox_exporter.Main.Pages.{Page, front, logs, healthy, root, show_config, reload}

-- The variables `sc`, `rh` and `moduleUnknownCounter`.
pub record Exporter : Type 0 where
  pub sc : SafeConfig
  pub served_state : State

-- An event with its inputs; the server of a probe has the configuration replaced by the current one.
pub data Event (V : Type 0) : Type 0 where
  hang_up : Loaded Config → (now : ℤ) → Event V
  reload_request : (method : String) → Loaded Config → (now : ℤ) → Event V
  probe_request : Server V → Request → Event V
  front_request : (escape : String → String) → Event V
  root_request : (external_url path : String) → Event V
  logs_request : (id : Option ℤ) → (target : String) → Event V
  healthy_request : Event V
  config_request : (marshal : Config → String × Option String) → Event V

-- What the event is answered: a signal is not, and a request whose probe panics is cut off.
pub data Answer (V : Type 0) : Type 0 where
  no_answer : Answer V
  page : Page → Answer V
  probed : Response V → Answer V

-- The start: without a configuration the process exits with 1.
unfoldable pub start :
    Loaded Config
    → (now zero : ℤ) → (history_limit : ℕ) → (module_unknown : Option ℕ) → Option Exporter
unfolding reload_config
start loaded now zero history_limit module_unknown =
    elim ((reload_config loaded now (new_safe_config zero)).1) [
      | some e ↦ none
      | none ↦ some (record {
        sc = (reload_config loaded now (new_safe_config zero)).0;
        served_state = record {
          history = new_history history_limit;
          module_unknown = module_unknown;
        };
      })
    ]

module _ (fl : Float64) where
  open fl use {Num}

  abbrev pub after_probe : Exporter → Served Num → Exporter × Answer Num
  after_probe e panicked = (e, no_answer)
  after_probe e (served response st) = (record e { served_state = st }, probed response)

  -- The endpoint /probe, with the configuration that is in use when the request comes.
  abbrev pub probe : Server Num → Request → Exporter → Exporter × Answer Num
  probe server r e =
      after_probe e (handler fl (record server { config = e.sc.config }) r none e.served_state)

  abbrev pub after_reload : Exporter → SafeConfig × Page → Exporter × Answer Num
  after_reload e (sc, p) = (record e { sc = sc }, page p)

  unfoldable pub handle : Event Num → Exporter → Exporter × Answer Num
  unfolding reload
  handle (hang_up loaded now) e = (record e { sc = (reload_config loaded now e.sc).0 }, no_answer)
  handle (reload_request method loaded now) e = after_reload e (reload method loaded now e.sc)
  handle (probe_request server r) e = probe server r e
  handle (front_request escape) e = (e, page (front escape e.served_state.history))
  handle (root_request external_url path) e = (e, page (root external_url path))
  handle (logs_request id target) e = (e, page (logs id target e.served_state.history))
  handle healthy_request e = (e, page healthy)
  handle (config_request marshal) e = (e, page (show_config (marshal e.sc.config)))
