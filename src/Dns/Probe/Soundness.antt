-- ===== src/Dns/Probe/Soundness.antt =====
-- What a DNS probe that succeeds has seen.
use big_blackbox_exporter.Base.{
  ℕ, ◌≡◌, refl, sym, ◌∙◌, Bool, true, List, [], ◌∷◌, String, Option, some, none, ◌==◌, ◌&&◌, arith,
  length, Bool-cases, Option-cases, inl, inr,
}
use big_blackbox_exporter.Base.Int.{pos}
use big_blackbox_exporter.Float64.{Float64}
use big_blackbox_exporter.Ip.{IpAddr}
use big_blackbox_exporter.Config.{DnsProbe}
use big_blackbox_exporter.Protocol.{Chosen}
use big_blackbox_exporter.Dns.{Rr}
use big_blackbox_exporter.Dns.Probe.{
  DnsClient, DnsResponse, DnsEnv, class_inet, type_any, type_soa, code_or, set_serials, report_soa,
  validate, check_response, send, query, probe_dns,
}
use big_blackbox_exporter.Dns.Codes.{IsCode, code_or-IsCode, rcode_rule, valid_rcode-eq-rule}
use big_blackbox_exporter.Dns.Rules.{rules, valid_rrs-eq-rules}
use big_blackbox_exporter.Metrics.{
  Registry, done, value_of, contains, return, must_register, or_fail, is_nil,
}
use big_blackbox_exporter.Metrics.Inversion.{
  Partly, Partly-elim, Partly-bind, Partly-skip, Partly-weaken, Partly-or_fail, Partly-ensure,
  Partly-register, Partly-or_fault,
}

module _ (fl : Float64) where
  open fl use {Num, of_int}

  -- The gauges that describe the response.
  pub record IsShown (response : DnsResponse) (reg : Registry Num) : Type 0 where
    pub answers :
        value_of "probe_dns_answer_rrs" [] reg ≡ some (of_int (pos (length response.answer)))
    pub authorities :
        value_of "probe_dns_authority_rrs" [] reg ≡ some (of_int (pos (length response.ns)))
    pub additionals :
        value_of "probe_dns_additional_rrs" [] reg ≡ some (of_int (pos (length response.extra)))
    pub succeeded : value_of "probe_dns_query_succeeded" [] reg ≡ some (of_int (pos 1))

  IsShown-after :
      (response : DnsResponse) (reg : Registry Num) (serial : ℕ)
      → IsShown response reg
      → IsShown response (record reg {
        samples =
            record { name = "probe_dns_serial"; labels = []; value = of_int (pos serial) }
            ∷ reg.samples;
      })
  IsShown-after response reg serial s = record {
    answers = s.answers;
    authorities = s.authorities;
    additionals = s.additionals;
    succeeded = s.succeeded;
  }

  moved :
      {response : DnsResponse} {reg : Registry Num} {names : List String}
      → IsShown response reg
      → IsShown response (record reg { registered = names })
  moved s = record {
    answers = s.answers;
    authorities = s.authorities;
    additionals = s.additionals;
    succeeded = s.succeeded;
  }

  set_serials-IsShown :
      (response : DnsResponse) (rrs : List Rr) (reg : Registry Num)
      → IsShown response reg
      → Partly (λ _ reg'. IsShown response reg') (set_serials fl rrs reg)
  unfolding set_serials
  set_serials-IsShown response [] reg s = s
  set_serials-IsShown response (rr ∷ rrs) reg s = elim (Option-cases rr.serial) [
    | inl other ↦ rw other (set_serials-IsShown response rrs reg s)
    | inr (serial, soa) ↦
        rw soa (set_serials-IsShown response rrs _ (IsShown-after response reg serial s))
  ]

  report_soa-IsShown :
      (response : DnsResponse) (qt : ℕ) (rrs : List Rr) (reg : Registry Num)
      → IsShown response reg
      → Partly (λ _ reg'. IsShown response reg') (report_soa fl qt rrs reg)
  unfolding report_soa must_register
  report_soa-IsShown response qt rrs reg s = elim (Bool-cases (qt == type_soa)) [
    | inl soa ↦ elim (Bool-cases (contains "probe_dns_serial" reg.registered)) [
      | inl twice ↦ rw (soa, twice) tt
      | inr new ↦ rw (soa, new) (set_serials-IsShown response rrs _ (moved s))
    ]
    | inr other ↦ rw other s
  ]

  -- The verdict on the response, and its description in the registry.
  check_response-IsShown :
      (env : DnsEnv Num) (dns : DnsProbe) (qt : ℕ) (response : DnsResponse) (reg : Registry Num)
      → Partly
          (λ b reg'. (b ≡ validate fl env dns response) × IsShown response reg')
          (check_response fl env dns qt (some response) reg)
  unfolding check_response or_fail
  check_response-IsShown env dns qt response reg =
      Partly-bind (λ _ reg'. IsShown response reg') _ (report_soa fl qt response.answer _)
        (λ _. return (validate fl env dns response))
        (report_soa-IsShown response qt response.answer _
          (record { answers = refl; authorities = refl; additionals = refl; succeeded = refl }))
        (λ u reg' s. (refl, s))

  -- The addresses and codes with which a query was sent, and its answer.
  pub record Answered (env : DnsEnv Num) (dns : DnsProbe) (target : String) (reg : Registry Num)
      : Type 0 where
    pub qclass : ℕ
    pub qtype : ℕ
    pub class_known : IsCode class_inet env.string_to_class dns.query_class qclass
    pub type_known : IsCode type_any env.string_to_type dns.query_type qtype
    pub client : DnsClient
    pub server : String
    pub response : DnsResponse
    pub exchanged :
        env.exchange client
          (record {
            recursion_desired = dns.recursion;
            name = env.fqdn dns.query_name;
            qtype = qtype;
            qclass = qclass;
          })
          server
        ≡ some response
    pub valid_code : rcode_rule env.string_to_rcode response.rcode dns.valid_rcodes ≡ true
    pub valid_answer : rules env.matches dns.validate_answer response.answer ≡ true
    pub valid_authority : rules env.matches dns.validate_authority response.ns ≡ true
    pub valid_additional : rules env.matches dns.validate_additional response.extra ≡ true
    pub shown : IsShown response reg

  -- What a response has to satisfy, written with the rules.
  validate-eq-rules :
      (env : DnsEnv Num) (dns : DnsProbe) (response : DnsResponse)
      → validate fl env dns response ≡ (
          rcode_rule env.string_to_rcode response.rcode dns.valid_rcodes
          && rules env.matches dns.validate_answer response.answer
          && rules env.matches dns.validate_authority response.ns
          && rules env.matches dns.validate_additional response.extra)
  validate-eq-rules env dns response =
      rw
        (
          valid_rcode-eq-rule env.string_to_rcode response.rcode dns.valid_rcodes,
          valid_rrs-eq-rules env.matches dns.validate_answer response.answer,
          valid_rrs-eq-rules env.matches dns.validate_authority response.ns,
          valid_rrs-eq-rules env.matches dns.validate_additional response.extra,
        )
        refl

  all_four :
      (a b c d : Bool)
      → (a && b && c && d) ≡ true
      → (a ≡ true) × (b ≡ true) × (c ≡ true) × (d ≡ true)
  all_four a b c d h = (ground arith, ground arith, ground arith, ground arith)

  -- A probe that ends with `true` has been answered.
  abbrev Success : DnsEnv Num → DnsProbe → String → Bool → Registry Num → Type 0
  Success env dns target b reg = b ≡ true → Answered env dns target reg

  no_answer :
      (env : DnsEnv Num) (dns : DnsProbe) (qt : ℕ) (target : String) (reg : Registry Num)
      → Partly (Success env dns target) (check_response fl env dns qt none reg)
  unfolding check_response or_fail
  no_answer env dns qt target reg = λ h. cc

  exchanged-Answered :
      (env : DnsEnv Num) (dns : DnsProbe) (target : String) (qc qt : ℕ) (client : DnsClient)
      (server : String) (reg : Registry Num)
      → code_or class_inet env.string_to_class dns.query_class ≡ some qc
      → code_or type_any env.string_to_type dns.query_type ≡ some qt
      → (o : Option DnsResponse)
      → env.exchange client
          (record {
            recursion_desired = dns.recursion;
            name = env.fqdn dns.query_name;
            qtype = qt;
            qclass = qc;
          })
          server
        ≡ o
      → Partly (Success env dns target) (check_response fl env dns qt o reg)
  exchanged-Answered env dns target qc qt client server reg c t none e =
      no_answer env dns qt target reg
  exchanged-Answered env dns target qc qt client server reg c t (some response) e =
      Partly-weaken _ (Success env dns target) (check_response fl env dns qt (some response) reg)
        (check_response-IsShown env dns qt response reg)
        λ b reg' (verdict, shown) yes_b.
          let (code, answer, authority, additional) =
            all_four _ _ _ _ (sym (validate-eq-rules env dns response) ∙ sym verdict ∙ yes_b) in
          record {
            qclass = qc;
            qtype = qt;
            class_known = code_or-IsCode class_inet env.string_to_class dns.query_class qc c;
            type_known = code_or-IsCode type_any env.string_to_type dns.query_type qt t;
            client = client;
            server = server;
            response = response;
            exchanged = e;
            valid_code = code;
            valid_answer = answer;
            valid_authority = authority;
            valid_additional = additional;
            shown = shown;
          }

  send-Answered :
      (env : DnsEnv Num) (dns : DnsProbe) (target host port : String) (qc qt : ℕ) (addr : IpAddr)
      (reg : Registry Num)
      → code_or class_inet env.string_to_class dns.query_class ≡ some qc
      → code_or type_any env.string_to_type dns.query_type ≡ some qt
      → Partly (Success env dns target) (send fl env dns host port qc qt addr reg)
  unfolding send
  send-Answered env dns target host port qc qt addr reg c t =
      Partly-or_fail (Success env dns target) _ _ reg (λ h. cc)
        λ net _.
          Partly-or_fail (Success env dns target) _ _ reg (λ h. cc)
            λ server_name _.
              Partly-or_fail (Success env dns target) _ _ reg (λ h. cc)
                λ local _. exchanged-Answered env dns target qc qt _ _ reg c t _ refl

  query-Answered :
      (env : DnsEnv Num) (dns : DnsProbe) (target host port : String) (qc qt : ℕ)
      (resolved : Chosen Num) (reg : Registry Num)
      → code_or class_inet env.string_to_class dns.query_class ≡ some qc
      → code_or type_any env.string_to_type dns.query_type ≡ some qt
      → Partly (Success env dns target) (query fl env dns host port qc qt resolved reg)
  query-Answered env dns target host port qc qt resolved reg c t =
      Partly-ensure (Success env dns target) (is_nil resolved.err) _ reg (λ e. cc)
        λ _.
          Partly-or_fault (Success env dns target) resolved.ip (send fl env dns host port qc qt) _
            λ addr _. send-Answered env dns target host port qc qt addr _ c t

  -- A DNS probe that succeeds has sent its query, with the class and the type that the
  -- configuration names, or IN and ANY where it names none, and got an answer. Its rcode is one of
  -- those that `valid_rcodes` lists, where all names of the list are known, or NOERROR where there is
  -- no list, and its three sections satisfy the rules of `validate_answer_rrs`,
  -- `validate_authority_rrs` and `validate_additional_rrs`. The gauges show the sizes of the sections and that the query succeeded.
  pub probe_dns-Answered :
      (env : DnsEnv Num) (dns : DnsProbe) (target : String) (reg reg' : Registry Num)
      → probe_dns fl env dns target reg ≡ done true reg'
      → Answered env dns target reg'
  unfolding probe_dns
  probe_dns-Answered env dns target reg reg' h =
      Partly-elim (Success env dns target) _
        (Partly-register (Success env dns target) "probe_dns_duration_seconds" _ _ (
          Partly-register (Success env dns target) "probe_dns_answer_rrs" _ _ (
            Partly-register (Success env dns target) "probe_dns_authority_rrs" _ _ (
              Partly-register (Success env dns target) "probe_dns_additional_rrs" _ _ (
                Partly-register (Success env dns target) "probe_dns_query_succeeded" _ _ (
                  Partly-or_fail (Success env dns target) _ _ _ (λ e. cc)
                    λ qc c.
                      Partly-or_fail (Success env dns target) _ _ _ (λ e. cc)
                        λ qt t.
                          Partly-ensure (Success env dns target) _ _ _ (λ e. cc)
                            λ _. Partly-skip (Success env dns target) _ _ λ resolved reg₁.
                              query-Answered env dns target _ _ qc qt resolved reg₁ c t))))))
        h refl
