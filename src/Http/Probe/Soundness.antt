-- ===== src/Http/Probe/Soundness.antt =====
-- What an HTTP probe that succeeds has seen.
use mathlib.Core.Path.{subst}
use big_blackbox_exporter.Base.{
  ℕ, ◌≡◌, ◌≢◌, refl, sym, ◌∙◌, Bool, true, false, String, Option, some, none, if◌then◌else◌, arith,
}
use big_blackbox_exporter.Float64.{Float64}
use big_blackbox_exporter.Ip.{IpAddr}
use big_blackbox_exporter.Config.{HttpProbe}
use big_blackbox_exporter.Tls.{ConnectionState}
use big_blackbox_exporter.Metrics.{Registry, done, return, or_fail}
use big_blackbox_exporter.Metrics.Inversion.{
  Partly, Partly-elim, Partly-bind, Partly-skip, Partly-step, Partly-weaken, Partly-or_fail,
  Partly-ensure, Partly-register, Partly-or_fault,
}
use big_blackbox_exporter.Http.Transport.{Transport, traces, report_traces}
use big_blackbox_exporter.Http.Response.{
  HttpResponse, no_response, check_response, check_tls, report_tls,
}
use big_blackbox_exporter.Http.Response.Verdict.{verdict, check_response-IsVerdict}
use big_blackbox_exporter.Http.Probe.{
  Url, Exchange, HttpEnv, with_server_name, client_config, check_redirect, url_host, request_body,
  make_request, conclude, on_response, after_exchange, send, resolve, probe_http,
}
use big_blackbox_exporter.Base.Text.{with_scheme}

-- The connection is encrypted or not, as the configuration asks.
pub record IsTlsAllowed (http : HttpProbe) (tls : Option ConnectionState) : Type 0 where
  pub not_over_tls : http.fail_if_ssl ≡ true → tls ≡ none
  pub over_tls : http.fail_if_not_ssl ≡ true → tls ≢ none

module _ (fl : Float64) (env : HttpEnv (fl.Num)) where
  -- A response came, and it passes.
  pub record IsAnswered (http : HttpProbe) (ex : Exchange) : Type 0 where
    pub response : HttpResponse
    pub answered : ex.response ≡ some response
    pub valid : verdict env.on_response http response ex.errored ≡ true
    pub tls_allowed : IsTlsAllowed http response.tls

  check_tls-IsTlsAllowed :
      (http : HttpProbe) (tls : Option ConnectionState) (success : Bool) (reg : Registry (fl.Num))
      → Partly
          (λ b _. b ≡ true → (success ≡ true) × IsTlsAllowed http tls)
          (check_tls fl env.on_response http tls success reg)
  unfolding check_tls
  check_tls-IsTlsAllowed http none success reg =
      λ h. (ground arith, record { not_over_tls = λ _. refl; over_tls = λ k _. ground arith })
  check_tls-IsTlsAllowed http (some tls) success reg =
      Partly-skip (λ b _. b ≡ true → (success ≡ true) × IsTlsAllowed http (some tls))
        (report_tls fl env.on_response tls reg)
        (λ _. return (if http.fail_if_ssl then false else success))
        λ _ reg' h.
          (ground arith, record { not_over_tls = λ k. absurd (ground arith); over_tls = λ _ e. cc })

  conclude-IsTlsAllowed :
      (http : HttpProbe) (ex : Exchange) (resp : HttpResponse) (t : Transport) (success : Bool)
      (bytes : ℕ) (reg : Registry (fl.Num))
      → Partly
          (λ b _. b ≡ true → (success ≡ true) × IsTlsAllowed http resp.tls)
          (conclude fl env http ex resp t success bytes reg)
  unfolding conclude
  conclude-IsTlsAllowed http ex resp t success bytes reg =
      Partly-skip (λ b _. b ≡ true → (success ≡ true) × IsTlsAllowed http resp.tls)
        (report_traces fl env.elapsed 0 (traces t) reg) _
        λ _ reg₁.
          Partly-bind {V = fl.Num} {A = Bool} {B = Bool} _
            (λ b _. b ≡ true → (success ≡ true) × IsTlsAllowed http resp.tls)
            (check_tls fl env.on_response http resp.tls success reg₁) _
            (check_tls-IsTlsAllowed http resp.tls success reg₁) λ b reg₂ h. h

  -- A probe that ends with `true` after the exchange has been answered.
  abbrev Accepts : HttpProbe → Exchange → Bool → Registry (fl.Num) → Type 0
  Accepts http ex b _ = b ≡ true → IsAnswered http ex

  on_response-IsAnswered :
      (http : HttpProbe) (ex : Exchange) (t : Transport) (o : Option HttpResponse)
      (reg : Registry (fl.Num))
      → ex.response ≡ o
      → Partly (Accepts http ex) (on_response fl env http ex t o reg)
  on_response-IsAnswered http ex t none reg e =
      Partly-weaken _ (Accepts http ex) _ (conclude-IsTlsAllowed http ex no_response t false 0 reg)
        λ b reg' h yes_b. cc (h yes_b).0
  on_response-IsAnswered http ex t (some resp) reg e =
      Partly-bind {V = fl.Num} {A = Bool × ℕ} {B = Bool} _ (Accepts http ex)
        (check_response fl env.on_response http resp ex.errored reg) _
        (check_response-IsVerdict fl env.on_response http resp ex.errored reg)
        λ (checked : Bool × ℕ) reg₁ (v, n). Partly-or_fault (Accepts http ex) _ _ reg₁ λ t' _.
          Partly-weaken _ (Accepts http ex) _
            (conclude-IsTlsAllowed http ex resp t' checked.0 checked.1 reg₁)
            λ b reg' h yes_b. record {
              response = resp;
              answered = e;
              valid = sym v ∙ (h yes_b).0;
              tls_allowed = (h yes_b).1;
            }

  after_exchange-IsAnswered :
      (http : HttpProbe) (ex : Exchange) (reg : Registry (fl.Num))
      → Partly (Accepts http ex) (after_exchange fl env http ex reg)
  unfolding after_exchange
  after_exchange-IsAnswered http ex reg =
      Partly-or_fault (Accepts http ex) _ _ reg
        λ t _. on_response-IsAnswered http ex t ex.response reg refl

  -- The request that the probe makes for a target, and its exchange.
  pub record IsProbed (http : HttpProbe) (target : String) : Type 0 where
    pub url : Url
    pub parsed : env.parse_url (with_scheme target) ≡ some url
    pub ip : Option IpAddr
    pub before : Registry (fl.Num)
    pub after : Registry (fl.Num)
    pub resolved_to : resolve fl env http url before ≡ done (some ip) after
    pub body : Option String
    pub opened : request_body env.open_file http ≡ some body
    pub answered : IsAnswered http (
        env.exchange
          (client_config http url.hostname)
          (with_server_name (client_config http url.hostname) "")
          (check_redirect http)
          (make_request env.user_agent
            (env.with_host url (url_host env.ip_text url ip))
            url
            http
            body))

  abbrev Success : HttpProbe → String → Bool → Registry (fl.Num) → Type 0
  Success http target b _ = b ≡ true → IsProbed http target

  send-IsProbed :
      (http : HttpProbe) (target : String) (url : Url) (ip : Option IpAddr)
      (before reg : Registry (fl.Num))
      → env.parse_url (with_scheme target) ≡ some url
      → resolve fl env http url before ≡ done (some ip) reg
      → Partly (Success http target) (send fl env http url ip reg)
  unfolding send
  send-IsProbed http target url ip before reg parsed resolved_to =
      Partly-ensure (Success http target) _ _ reg (λ e. cc)
        λ _.
          Partly-ensure (Success http target) _ _ reg (λ e. cc)
            λ _.
              Partly-ensure (Success http target) _ _ reg (λ e. cc)
                λ _.
                  Partly-or_fail (Success http target) _ _ reg (λ e. cc)
                    λ body opened.
                      Partly-ensure (Success http target) _ _ reg (λ e. cc)
                        λ _.
                          Partly-weaken _ (Success http target) _
                            (after_exchange-IsAnswered http _ _)
                            λ b reg' answered yes_b. record {
                              url = url;
                              parsed = parsed;
                              ip = ip;
                              before = before;
                              after = reg;
                              resolved_to = resolved_to;
                              body = body;
                              opened = opened;
                              answered = answered yes_b;
                            }

  address-IsProbed :
      (http : HttpProbe) (target : String) (url : Url) (address : Option (Option IpAddr))
      (before reg : Registry (fl.Num))
      → env.parse_url (with_scheme target) ≡ some url
      → resolve fl env http url before ≡ done address reg
      → Partly (Success http target) (or_fail address (send fl env http url) reg)
  address-IsProbed http target url address before reg parsed chosen =
      Partly-or_fail (Success http target) address (send fl env http url) reg (λ e. cc)
        λ ip some_ip.
          send-IsProbed http target url ip before reg parsed
            (subst (λ o. resolve fl env http url before ≡ done o reg) some_ip chosen)

  -- An HTTP probe that succeeds has parsed its target, with http:// in front where it names no
  -- scheme, has resolved it, has made the configured request of the address, with `CheckRedirect`
  -- deciding on redirects, and got a response that passes the verdict on a response; the response
  -- is not over TLS where `fail_if_ssl` is set, and is over TLS where `fail_if_not_ssl` is.
  pub probe_http-IsProbed :
      (http : HttpProbe) (target : String) (reg reg' : Registry (fl.Num))
      → probe_http fl env http target reg ≡ done true reg'
      → IsProbed http target
  unfolding probe_http
  probe_http-IsProbed http target reg reg' h =
      Partly-elim (Success http target) _
        (Partly-register (Success http target) "probe_http_duration_seconds" _ _ (
          Partly-register (Success http target) "probe_http_content_length" _ _ (
            Partly-register (Success http target) "probe_http_uncompressed_body_length" _ _ (
              Partly-register (Success http target) "probe_http_redirects" _ _ (
                Partly-register (Success http target) "probe_http_ssl" _ _ (
                  Partly-register (Success http target) "probe_http_status_code" _ _ (
                    Partly-register (Success http target) "probe_http_version" _ _ (
                      Partly-register (Success http target) "probe_failed_due_to_regex" _ _ (
                        Partly-or_fail (Success http target) _ _ _ (λ e. cc)
                          λ url parsed.
                            Partly-step (Success http target) (resolve fl env http url _) _
                              λ address reg₁ chosen.
                                address-IsProbed http target url address _ reg₁ parsed
                                  chosen)))))))))
        h refl
