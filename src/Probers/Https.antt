-- ===== src/Probers/Https.antt =====
-- The HTTP probe leaves the gauge `probe_success` to the handler.
use big_blackbox_exporter.Base.{
  ℕ, zero, suc, Bool, false, List, [], ◌∷◌, String, Option, some, none, if◌then◌else◌,
}
use big_blackbox_exporter.Base.Int.{pos}
use big_blackbox_exporter.Float64.{Float64}
use big_blackbox_exporter.Metrics.{Registry, Probe, return, add_gauge, and_then, ◌>>◌}
use big_blackbox_exporter.Metrics.Inversion.{
  Partly, Partly-register, Partly-or_fail, Partly-or_fault, Partly-ensure,
}
use big_blackbox_exporter.Metrics.Unset.{IsUnset, Unset, Partly-if, Unset-bind}
use big_blackbox_exporter.Tls.{Time, ConnectionState, is_zero}
use big_blackbox_exporter.Config.{HttpProbe}
use big_blackbox_exporter.Ip.{IpAddr}
use big_blackbox_exporter.Protocol.{Chosen, choose_protocol}
use big_blackbox_exporter.Http.Matchers.{
  Header, match_regular_expressions, match_regular_expressions_on_headers,
}
use big_blackbox_exporter.Http.Transport.{
  Trace, Transport, traces, add_resolve, add_connect, add_processing, report_trace, report_traces,
}
use big_blackbox_exporter.Http.Response.{
  Body, HttpResponse, no_response, ResponseEnv, set_failed_due_to_regex, match_headers, match_body,
  read_all, header_get, set_last_modified, finish_response, check_response, report_tls, check_tls,
}
use big_blackbox_exporter.Http.Probe.{
  HttpEnv, Url, Exchange, resolves, resolved, conclude, on_response, after_exchange, send, resolve,
  probe_http,
}
use big_blackbox_exporter.Probers.Sockets.{choose_protocol-Unset}
use big_blackbox_exporter.Probers.Streams.{report_connection-Unset}

module _ (fl : Float64) (elapsed : Time → Time → fl.Num) where
  open fl use {Num}

  abbrev KeepsUnset : Probe Num (Unit {0}) → Type 0
  KeepsUnset m = (reg : Registry Num) → IsUnset reg → Partly Unset (m reg)

  if-Unset :
      (b : Bool) (m k : Probe Num (Unit {0}))
      → KeepsUnset m
      → KeepsUnset k
      → KeepsUnset (if b then m else k)
  if-Unset b m k first second reg u = Partly-if Unset b m k reg (first reg u) (second reg u)

  then-Unset : (m k : Probe Num (Unit {0})) → KeepsUnset m → KeepsUnset k → KeepsUnset (m >> k)
  then-Unset m k first second reg u =
      Unset-bind (m reg) (λ _. k) (first reg u) λ unit reg' u'. second reg' u'

  add_resolve-Unset : (i : ℕ) (t : Trace) → KeepsUnset (add_resolve fl elapsed i t)
  add_resolve-Unset zero t reg u = u
  add_resolve-Unset (suc i) t reg u = u

  add_connect-Unset : (t : Trace) → KeepsUnset (add_connect fl elapsed t)
  add_connect-Unset t = if-Unset t.tls _ _ (λ reg u. u) λ reg u. u

  add_processing-Unset : (t : Trace) → KeepsUnset (add_processing fl elapsed t)
  add_processing-Unset t =
      if-Unset (is_zero t.response_start) (return tt) _ (λ reg u. u)
        λ reg u. if-Unset (is_zero t.end_time) (return tt) _ (λ reg u. u) (λ reg u. u) _ u

  report_traces-Unset : (i : ℕ) (ts : List Trace) → KeepsUnset (report_traces fl elapsed i ts)
  unfolding report_traces report_trace
  report_traces-Unset i [] reg u = u
  report_traces-Unset i (t ∷ ts) reg u =
      then-Unset (report_trace fl elapsed i t) (report_traces fl elapsed (suc i) ts)
        (then-Unset (add_resolve fl elapsed i t) _ (add_resolve-Unset i t) (
          if-Unset (is_zero t.got_conn) (return tt)
            (add_connect fl elapsed t >> add_processing fl elapsed t) (λ reg u. u)
            (then-Unset (add_connect fl elapsed t) (add_processing fl elapsed t)
              (add_connect-Unset t) (add_processing-Unset t))))
        (report_traces-Unset (suc i) ts) reg u

module _ (fl : Float64) (env : ResponseEnv (fl.Num)) where
  open fl use {Num, of_int, parse}

  match_headers-Unset :
      (http : HttpProbe) (header : Header) (success : Bool) (reg : Registry Num)
      → IsUnset reg
      → Partly Unset (match_headers fl env http header success reg)
  unfolding match_headers
  match_headers-Unset http header success reg u =
      Partly-if Unset _
        (set_failed_due_to_regex fl env
          (match_regular_expressions_on_headers env.matches header http))
        (return success) reg u u

  match_body-Unset :
      (http : HttpProbe) (body : Body) (success : Bool) (reg : Registry Num)
      → IsUnset reg
      → Partly Unset (match_body fl env http body success reg)
  unfolding match_body
  match_body-Unset http body success reg u =
      Partly-if Unset _
        (set_failed_due_to_regex fl env
          (match_regular_expressions env.matches (read_all env body) http))
        (return success) reg u u

  set_last_modified-Unset :
      (o : Option Num) (reg : Registry Num)
      → IsUnset reg
      → Partly Unset (set_last_modified fl env o reg)
  set_last_modified-Unset none reg u = u
  set_last_modified-Unset (some seconds) reg u =
      Partly-register Unset "probe_http_last_modified_timestamp_seconds" _ reg u

  finish_response-Unset :
      (http : HttpProbe) (resp : HttpResponse) (body : Body) (errored success : Bool)
      (reg : Registry Num)
      → IsUnset reg
      → Partly Unset (finish_response fl env http resp body errored success reg)
  unfolding finish_response
  finish_response-Unset http resp body errored success reg u =
      let last_modified = env.parse_time (header_get "Last-Modified" resp.header) in
      Unset-bind {B = Bool × ℕ} (set_last_modified fl env last_modified reg) _
        (set_last_modified-Unset last_modified reg u) λ unit reg' u'. u'

  check_response-Unset :
      (http : HttpProbe) (resp : HttpResponse) (errored : Bool) (reg : Registry Num)
      → IsUnset reg
      → Partly Unset (check_response fl env http resp errored reg)
  unfolding check_response
  check_response-Unset http resp errored reg u =
      Unset-bind {B = Bool × ℕ} _ _ (match_headers-Unset http resp.header _ reg u)
        λ success₁ reg₁ u₁.
          Unset-bind {B = Bool × ℕ} _ _ (match_body-Unset http _ _ reg₁ u₁)
            λ success₃ reg₃ u₃. finish_response-Unset http resp _ errored success₃ reg₃ u₃

  check_tls-Unset :
      (http : HttpProbe) (tls : Option ConnectionState) (success : Bool) (reg : Registry Num)
      → IsUnset reg
      → Partly Unset (check_tls fl env http tls success reg)
  unfolding check_tls report_tls
  check_tls-Unset http none success reg u = u
  check_tls-Unset http (some tls) success reg u =
      Unset-bind _ _ (report_connection-Unset fl env.unix env.fingerprint tls _ u)
        λ unit reg' u'. u'

module _ (fl : Float64) (env : HttpEnv (fl.Num)) where
  open fl use {Num, of_int, add}

  conclude-Unset :
      (http : HttpProbe) (ex : Exchange) (resp : HttpResponse) (t : Transport) (success : Bool)
      (bytes : ℕ) (reg : Registry Num)
      → IsUnset reg
      → Partly Unset (conclude fl env http ex resp t success bytes reg)
  unfolding conclude
  conclude-Unset http ex resp t success bytes reg u =
      Unset-bind _ _ (report_traces-Unset fl env.elapsed 0 (traces t) reg u) λ unit reg₁ u₁.
        Unset-bind _ _ (check_tls-Unset fl env.on_response http resp.tls success reg₁ u₁)
          λ success' reg₂ u₂. u₂

  on_response-Unset :
      (http : HttpProbe) (ex : Exchange) (t : Transport) (o : Option HttpResponse)
      (reg : Registry Num)
      → IsUnset reg
      → Partly Unset (on_response fl env http ex t o reg)
  on_response-Unset http ex t none reg u = conclude-Unset http ex no_response t false 0 reg u
  on_response-Unset http ex t (some resp) reg u =
      Unset-bind _ _ (check_response-Unset fl env.on_response http resp ex.errored reg u)
        λ checked reg' u'.
          Partly-or_fault Unset _ _ reg'
            λ t' _. conclude-Unset http ex resp t' checked.0 checked.1 reg' u'

  send-Unset :
      (http : HttpProbe) (url : Url) (ip : Option IpAddr) (reg : Registry Num)
      → IsUnset reg
      → Partly Unset (send fl env http url ip reg)
  unfolding send after_exchange
  send-Unset http url ip reg u = Partly-ensure Unset _ _ reg u λ _.
      Partly-ensure Unset _ _ reg u λ _. Partly-ensure Unset _ _ reg u λ _.
        Partly-or_fail Unset _ _ reg u λ body _.
          Partly-ensure Unset _ _ reg u
            λ _. Partly-or_fault Unset _ _ _ λ t _. on_response-Unset http _ t _ _ u

  resolve-Unset :
      (http : HttpProbe) (url : Url) (reg : Registry Num)
      → IsUnset reg
      → Partly Unset (resolve fl env http url reg)
  unfolding resolve
  resolve-Unset http url reg u =
      let P : Option (Option IpAddr) → Registry Num → Type 0 = Unset in
      Partly-if P (resolves http) (λ reg'. and_then (choose reg') counted) (return (some none)) reg
        (Unset-bind {B = Option (Option IpAddr)} (choose reg) counted
          (choose_protocol-Unset fl _ _ _ _ _ reg u) λ c reg' u'. u')
        u
    where
      choose : Probe Num (Chosen Num)
      choose =
          choose_protocol fl env.resolver env.lookup_time http.ip_protocol http.ip_protocol_fallback
            url.hostname

      counted : Chosen Num → Probe Num (Option (Option IpAddr))
      counted c =
          add_gauge add (of_int (pos 0)) "probe_http_duration_seconds" ("resolve" ∷ [])
            c.lookup_time
          >> return (resolved fl env c)

  pub probe_http-Unset :
      (http : HttpProbe) (target : String) (reg : Registry Num)
      → IsUnset reg
      → Partly Unset (probe_http fl env http target reg)
  unfolding probe_http
  probe_http-Unset http target reg u = Partly-register Unset "probe_http_duration_seconds" _ _ (
      Partly-register Unset "probe_http_content_length" _ _ (
        Partly-register Unset "probe_http_uncompressed_body_length" _ _ (
          Partly-register Unset "probe_http_redirects" _ _ (
            Partly-register Unset "probe_http_ssl" _ _ (
              Partly-register Unset "probe_http_status_code" _ _ (
                Partly-register Unset "probe_http_version" _ _ (
                  Partly-register Unset "probe_failed_due_to_regex" _ _ (
                    Partly-or_fail Unset _ _ _ u λ url _.
                      Unset-bind _ _ (resolve-Unset http url _ u) λ address reg' u'.
                        Partly-or_fail Unset address _ reg' u'
                          λ ip _. send-Unset http url ip reg' u'))))))))
