-- ===== src/Main/Mux.antt =====
-- main.go: the registration of the HTTP endpoints with `http.DefaultServeMux`.
--
-- `mux` are the patterns that are registered already when `run` begins: the packages that main.go
-- imports register theirs, as net/http/pprof does with "/debug/pprof/" and what lies below it. A
-- pattern that is registered twice is a panic.
use big_blackbox_exporter.Base.{
  ◌≡◌, refl, Bool, false, ◌||◌, List, [], ◌∷◌, String, Option, some, none, str_eq, eq_iff, any,
  if◌then◌else◌, arith, Bool-cases, inl, inr,
}
use big_blackbox_exporter.Base.Dict.{lookup, NodupKeys}
use big_blackbox_exporter.Main.Url.{route_prefix}
use big_blackbox_exporter.Main.Routes.{Route, routes, Joins, routes-NodupKeys}

abbrev pub is_registered : String → List String → Bool
is_registered pattern [] = false
is_registered pattern (other ∷ mux) = str_eq other pattern || is_registered pattern mux

-- The calls of `http.HandleFunc` and `http.Handle` in their order; none is the panic.
unfoldable pub register : (mux : List String) → List (String × Route) → Option (List String)
register mux [] = some mux
register mux ((pattern, _) ∷ rs) =
    let rest = register (pattern ∷ mux) rs in if is_registered pattern mux then none else rest

-- One of the patterns is registered already.
abbrev pub clashes : (mux : List String) → List (String × Route) → Bool
clashes mux rs = any (λ r. is_registered r.0 mux) rs

-- The patterns that are registered afterwards.
abbrev pub with_patterns : (mux : List String) → List (String × Route) → List String
with_patterns mux [] = mux
with_patterns mux ((pattern, _) ∷ rs) = with_patterns (pattern ∷ mux) rs

abbrev pub unless_clash : (mux : List String) → List (String × Route) → Option (List String)
unless_clash mux rs = if clashes mux rs then none else some (with_patterns mux rs)

-- A new pattern clashes with none of those that differ from it.
clashes-cons :
    (pattern : String) (mux : List String) (rs : List (String × Route))
    → lookup pattern rs ≡ none
    → clashes (pattern ∷ mux) rs ≡ clashes mux rs
unfolding lookup
clashes-cons pattern mux [] h = refl
clashes-cons pattern mux ((other, r) ∷ rs) h = elim (Bool-cases (str_eq other pattern)) [
  | inl same ↦ absurd (ground arith)
  | inr differs ↦ ground (
    arith,
    eq_iff pattern other,
    eq_iff other pattern,
    clashes-cons pattern mux rs (ground arith),
  )
]

register-eq-unless :
    (mux : List String) (rs : List (String × Route))
    → NodupKeys rs
    → register mux rs ≡ unless_clash mux rs
unfolding register
register-eq-unless mux [] nodup = refl
register-eq-unless mux ((pattern, r) ∷ rs) (new, nodup) =
    elim (Bool-cases (is_registered pattern mux)) [
      | inl clash ↦ rw clash refl
      | inr free ↦
          rw (free, register-eq-unless (pattern ∷ mux) rs nodup, clashes-cons pattern mux rs new)
            refl
    ]

-- The endpoints never clash with each other, whatever the flags say: with the prefix that the flag or
-- the path of the external URL gives, the registration of all patterns is a panic exactly where one
-- of them was registered by another package before, and otherwise all are registered. Assumed of
-- `path.Join` is that a path joined from a prefix and an endpoint ends with the endpoint.
pub register-routes :
    (join : String → String → String) (mux : List String) (flag url_path : String)
    → Joins join
    → register mux (routes join (route_prefix flag url_path))
      ≡ unless_clash mux (routes join (route_prefix flag url_path))
register-routes join mux flag url_path joins =
    register-eq-unless mux _ (routes-NodupKeys join flag url_path joins)
