-- ===== src/Handler/Logging.antt =====
-- prober/handler.go: `scrapeLogger`, and what `Handler` writes to it around a probe.
--
-- The loggers of go-kit are parameters: the logfmt logger's line, with its time and its caller, by
-- its number, and the filter for the level of the flag `log.prober`. `Log` has a copy of the
-- scrape logger as its receiver, but the logger in the copy writes to the one buffer. The texts of
-- numbers are arguments.
use Prim.Native.String.{◌++◌ as ◌<>◌}
use text.Mathlib.TextLemmas.{append_assoc as text_append_assoc, append-nil as text_append-nil}
use mathlib.Core.List.{append_assoc, append-nil}
use big_blackbox_exporter.Base.{
  ℕ, suc, ◌≡◌, Bool, true, false, List, [], ◌∷◌, ◌++◌, String, if◌then◌else◌,
}

-- The key and value pairs of a call of `Log`.
abbrev pub Keyvals : Type 0
Keyvals = List (String × String)

pub record LogEnv : Type 0 where
  pub logfmt : ℕ → Keyvals → String
  pub allows : Keyvals → Bool

-- The pairs that come with each entry, the buffer with its number of lines, and the entries that
-- `next` was given.
pub record ScrapeLogger : Type 0 where
  pub context : Keyvals
  pub buffer : String
  pub count : ℕ
  pub next : List Keyvals

abbrev pub probe_context : (module_name target : String) → Keyvals
probe_context module_name target = ("module", module_name) ∷ ("target", target) ∷ []

-- `newScrapeLogger`
unfoldable pub new_scrape_logger : (module_name target : String) → ScrapeLogger
new_scrape_logger module_name target = record {
  context = probe_context module_name target;
  buffer = "";
  count = 0;
  next = [];
}

module _ (env : LogEnv) where
  -- `Log`
  unfoldable pub log : Keyvals → ScrapeLogger → ScrapeLogger
  log keyvals sl = record {
    context = sl.context;
    buffer = sl.buffer <> env.logfmt sl.count (sl.context ++ keyvals);
    count = suc sl.count;
    next = if env.allows keyvals then sl.next ++ (sl.context ++ keyvals) ∷ [] else sl.next;
  }

  unfoldable pub log_all : List Keyvals → ScrapeLogger → ScrapeLogger
  unfolding log
  log_all [] sl = sl
  log_all (keyvals ∷ more) sl = log_all more (log keyvals sl)

-- `level.Info(sl).Log("msg", msg, ...)` and `level.Error(sl).Log("msg", msg, ...)`
abbrev pub info : (msg : String) → Keyvals → Keyvals
info msg keyvals = ("level", "info") ∷ ("msg", msg) ∷ keyvals

abbrev pub error : (msg : String) → Keyvals → Keyvals
error msg keyvals = ("level", "error") ∷ ("msg", msg) ∷ keyvals

abbrev pub beginning : (prober timeout : String) → Keyvals
beginning prober timeout =
    info "Beginning probe" (("probe", prober) ∷ ("timeout_seconds", timeout) ∷ [])

abbrev pub verdict : (success : Bool) → (duration : String) → Keyvals
verdict true duration = info "Probe succeeded" (("duration_seconds", duration) ∷ [])
verdict false duration = error "Probe failed" (("duration_seconds", duration) ∷ [])

-- The logger of a probe that has ended, where `messages` is what the probe itself has logged.
unfoldable pub probe_log :
    LogEnv
    → (module_name target prober timeout : String) → (messages : List Keyvals) → (success : Bool)
    → (duration : String) → ScrapeLogger
unfolding log log_all new_scrape_logger
probe_log env module_name target prober timeout messages success duration =
    let sl = log env (beginning prober timeout) (new_scrape_logger module_name target) in
    log env (verdict success duration) (log_all env messages sl)

module _ (env : LogEnv) (context : Keyvals) where
  -- The lines of the entries from number `n` on.
  abbrev pub lines : (n : ℕ) → List Keyvals → String
  lines n [] = ""
  lines n (keyvals ∷ more) = env.logfmt n (context ++ keyvals) <> lines (suc n) more

  -- The entries that the filter lets through.
  abbrev pub passed : List Keyvals → List Keyvals
  passed [] = []
  passed (keyvals ∷ more) =
      if env.allows keyvals then (context ++ keyvals) ∷ passed more else passed more

-- The entries of a probe in order.
abbrev pub entries :
    (prober timeout : String)
    → (messages : List Keyvals) → (success : Bool) → (duration : String) → List Keyvals
entries prober timeout messages success duration =
    beginning prober timeout ∷ (messages ++ verdict success duration ∷ [])

-- What `Log` has done for a sequence of calls.
record IsLogged (env : LogEnv) (entries : List Keyvals) (sl sl' : ScrapeLogger) : Type 0 where
  same_context : sl'.context ≡ sl.context
  counted : sl'.buffer ≡ sl.buffer <> lines env sl.context sl.count entries
  filtered : sl'.next ≡ sl.next ++ passed env sl.context entries
