-- ===== src/Handler/Host.antt =====
-- prober/handler.go: `setHTTPHost`, the `hostname` parameter of an HTTP probe.
use big_blackbox_exporter.Base.{
  ◌≡◌, ◌≢◌, refl, Bool, not, ◌&&◌, List, [], ◌∷◌, String, Option, some, none, str_eq, eq_iff,
  if◌then◌else◌, arith, Bool-cases, inl, inr, All,
}
use big_blackbox_exporter.Base.Text.{canonical_mime_header_key}
use big_blackbox_exporter.Base.Dict.{lookup, insert, lookup-insert, NodupKeys}

abbrev pub Headers : Type 0
Headers = List (String × String)

abbrev pub conflicts : String → String → String → Bool
conflicts hostname name value =
    str_eq (canonical_mime_header_key name) "Host" && not (str_eq value hostname)

-- The loop that copies the headers; none is the error return.
unfoldable pub copy_headers : String → Headers → Headers → Option Headers
copy_headers hostname headers [] = some headers
copy_headers hostname headers ((name, value) ∷ rest) =
    if conflicts hostname name value
    then none
    else copy_headers hostname (insert name value headers) rest

abbrev pub with_host : String → Option Headers → Option Headers
with_host hostname none = none
with_host hostname (some headers) = some (insert "Host" hostname headers)

-- The new headers of the module; none is the error.
unfoldable pub set_http_host : String → Headers → Option Headers
set_http_host hostname headers = with_host hostname (copy_headers hostname [] headers)

-- No header is a host header with another value.
abbrev pub Agrees : String → Headers → Type 0
Agrees hostname headers = All (λ h. canonical_mime_header_key h.0 ≡ "Host" → h.1 ≡ hostname) headers

-- The entries of the map `headers` on top of those of `under`.
abbrev pub or_under : Option String → Option String → Option String
or_under (some v) o = some v
or_under none o = o

copied :
    (hostname k : String) (under headers copy : Headers)
    → NodupKeys headers
    → copy_headers hostname under headers ≡ some copy
    → lookup k copy ≡ or_under (lookup k headers) (lookup k under)
unfolding copy_headers lookup
copied hostname k under [] copy d h = ground arith
copied hostname k under ((name, value) ∷ rest) copy (new, d) h = ground (
  arith,
  copied hostname k (insert name value under) rest copy d,
  lookup-insert name k value under,
  eq_iff name k,
)

copy_headers-Agrees :
    (hostname : String) (under headers copy : Headers)
    → copy_headers hostname under headers ≡ some copy
    → Agrees hostname headers
unfolding copy_headers
copy_headers-Agrees hostname under [] copy h = tt
copy_headers-Agrees hostname under ((name, value) ∷ rest) copy h =
    elim (Bool-cases (conflicts hostname name value)) [
      | inl bad ↦ absurd (ground arith)
      | inr fine ↦ (
        (λ host.
            ground (arith, eq_iff (canonical_mime_header_key name) "Host", eq_iff value hostname)),
        copy_headers-Agrees hostname (insert name value under) rest copy (ground arith),
      )
    ]

copy_headers-refused :
    (hostname : String) (under headers : Headers)
    → copy_headers hostname under headers ≡ none
    → ¬ Agrees hostname headers
unfolding copy_headers
copy_headers-refused hostname under [] h _ = cc
copy_headers-refused hostname under ((name, value) ∷ rest) h (host, others) =
    elim (Bool-cases (conflicts hostname name value)) [
      | inl bad ↦
          ground
            (arith, host, eq_iff (canonical_mime_header_key name) "Host", eq_iff value hostname)
      | inr fine ↦
          copy_headers-refused hostname (insert name value under) rest (ground arith) others
    ]

-- `copy` is `headers` with the host header set to `hostname`.
pub record IsHosted (hostname : String) (headers copy : Headers) : Type 0 where
  pub agrees : Agrees hostname headers
  pub host : lookup "Host" copy ≡ some hostname
  pub others : (k : String) → k ≢ "Host" → lookup k copy ≡ lookup k headers

-- An error says that some host header of the module has another value.
abbrev pub HostResult : String → Headers → Option Headers → Type 0
HostResult hostname headers none = ¬ Agrees hostname headers
HostResult hostname headers (some copy) = IsHosted hostname headers copy

hosted :
    (hostname : String) (headers : Headers)
    → NodupKeys headers
    → (o : Option Headers) → copy_headers hostname [] headers ≡ o
    → HostResult hostname headers (with_host hostname o)
unfolding lookup
hosted hostname headers d none e = copy_headers-refused hostname [] headers e
hosted hostname headers d (some copy) e = record {
  agrees = copy_headers-Agrees hostname [] headers copy e;
  host = ground (arith, lookup-insert "Host" "Host" hostname copy, eq_iff "Host" "Host");
  others = λ k other. ground (
    arith,
    lookup-insert "Host" k hostname copy,
    eq_iff "Host" k,
    copied hostname k [] headers copy d e,
  );
}

-- `setHTTPHost` fails exactly where a header of the module whose canonical name is Host has
-- another value than the hostname. Otherwise the new headers have the hostname under Host, and
-- under every other name what the module has there.
pub set_http_host-HostResult :
    (hostname : String) (headers : Headers)
    → NodupKeys headers
    → HostResult hostname headers (set_http_host hostname headers)
unfolding set_http_host
set_http_host-HostResult hostname headers d = hosted hostname headers d _ refl
