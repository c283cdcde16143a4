-- ===== src/Http/Transport.antt =====
-- prober/http.go: `transport`, which keeps a trace of times for each round trip of a request.
--
-- `current` of the source points to the last element of `traces`: here `earlier` holds the traces
-- before it, and `current` is none where the pointer is nil. The hooks of net/http/httptrace come
-- with the time that each of them reads; the mutex makes a hook one step. A nil pointer that is
-- dereferenced is none. What the two underlying round trippers do is not part of the state.
pub mod Order
use big_blackbox_exporter.Base.{
  ℕ, zero, suc, Bool, true, false, not, List, [], ◌∷◌, ◌++◌, String, Option, some, none, str_eq,
  if◌then◌else◌,
}
use big_blackbox_exporter.Base.Int.{pos}
use big_blackbox_exporter.Float64.{Float64}
use big_blackbox_exporter.Metrics.{Probe, ◌>>◌, return, add_gauge}
use big_blackbox_exporter.Tls.{Time, zero_time, is_zero}

-- `roundTripTrace`
pub record Trace : Type 0 where
  pub tls : Bool
  pub start : Time
  pub dns_done : Time
  pub connect_done : Time
  pub got_conn : Time
  pub response_start : Time
  pub end_time : Time
  pub tls_start : Time
  pub tls_done : Time

abbrev pub new_trace : Bool → Trace
new_trace tls = record {
  tls = tls;
  start = zero_time;
  dns_done = zero_time;
  connect_done = zero_time;
  got_conn = zero_time;
  response_start = zero_time;
  end_time = zero_time;
  tls_start = zero_time;
  tls_done = zero_time;
}

pub record Transport : Type 0 where
  pub first_host : String
  pub earlier : List Trace
  pub current : Option Trace

abbrev pub new_transport : Transport
new_transport = record { first_host = ""; earlier = []; current = none }

abbrev pub to_list : Option Trace → List Trace
to_list none = []
to_list (some trace) = trace ∷ []

-- `t.traces`
abbrev pub traces : Transport → List Trace
traces t = t.earlier ++ to_list t.current

-- `RoundTrip`: the new state, and whether the round tripper that sets the server's name is used.
unfoldable pub round_trip : (scheme host : String) → Transport → Transport × Bool
round_trip scheme host t =
    let first = if str_eq t.first_host "" then host else t.first_host in
    (
      record {
        first_host = first;
        earlier = traces t;
        current = some (new_trace (str_eq scheme "https"));
      },
      str_eq first host,
    )

-- The hooks.
pub data Hook : Type 0 where
  dns_start dns_done connect_start connect_done got_conn got_first_response_byte : Hook
  tls_handshake_start tls_handshake_done : Hook

-- What a hook does to the trace that is current.
unfoldable pub on_trace : Hook → Time → Trace → Trace
on_trace dns_start now t = record t { start = now }
on_trace dns_done now t = record t { dns_done = now }
on_trace connect_start now t =
    if is_zero t.dns_done then record t { start = now; dns_done = now } else t
on_trace connect_done now t = record t { connect_done = now }
on_trace got_conn now t = record t { got_conn = now }
on_trace got_first_response_byte now t = record t { response_start = now }
on_trace tls_handshake_start now t = record t { tls_start = now }
on_trace tls_handshake_done now t = record t { tls_done = now }

abbrev pub with_current : Transport → Option Trace → Option Transport
with_current t none = none
with_current t (some trace) = some (record t { current = some trace })

abbrev pub map_trace : (Trace → Trace) → Option Trace → Option Trace
map_trace f none = none
map_trace f (some trace) = some (f trace)

unfoldable pub hook : Hook → Time → Transport → Option Transport
unfolding on_trace
hook h now t = with_current t (map_trace (on_trace h now) t.current)

module _ (fl : Float64) (elapsed : Time → Time → fl.Num) where
  open fl use {Num, of_int, add}

  -- `durationGaugeVec.WithLabelValues(phase).Add(to.Sub(from).Seconds())`, where `elapsed to from`
  -- is the number of seconds.
  abbrev pub add_phase : String → Time → Time → Probe Num (Unit {0})
  add_phase phase to from =
      add_gauge add (of_int (pos 0)) "probe_http_duration_seconds" (phase ∷ []) (elapsed to from)

  abbrev pub add_resolve : ℕ → Trace → Probe Num (Unit {0})
  add_resolve zero t = return tt
  add_resolve (suc i) t = add_phase "resolve" t.dns_done t.start

  abbrev pub add_connect : Trace → Probe Num (Unit {0})
  add_connect t =
      if t.tls
      then add_phase "connect" t.connect_done t.dns_done >> add_phase "tls" t.tls_done t.tls_start
      else add_phase "connect" t.got_conn t.dns_done

  abbrev pub add_transfer : Trace → Probe Num (Unit {0})
  add_transfer t =
      if is_zero t.end_time then return tt else add_phase "transfer" t.end_time t.response_start

  abbrev pub add_processing : Trace → Probe Num (Unit {0})
  add_processing t =
      if is_zero t.response_start
      then return tt
      else add_phase "processing" t.response_start t.got_conn >> add_transfer t

  -- The pass of the loop over the traces for the trace number `i`.
  unfoldable pub report_trace : ℕ → Trace → Probe Num (Unit {0})
  report_trace i t =
      add_resolve i t
      >> (if is_zero t.got_conn then return tt else add_connect t >> add_processing t)

  unfoldable pub report_traces : ℕ → List Trace → Probe Num (Unit {0})
  unfolding report_trace
  report_traces i [] = return tt
  report_traces i (t ∷ ts) = report_trace i t >> report_traces (suc i) ts
