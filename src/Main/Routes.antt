-- ===== src/Main/Routes.antt =====
-- main.go: the patterns under which `run` registers the HTTP endpoints.
--
-- `join` is `path.Join` of two paths. What net/http does with a pattern is not modelled, but that
-- registering one twice is a panic.
use Prim.Native.String.{◌++◌ as ◌<>◌}
use big_blackbox_exporter.Base.{
  ◌≡◌, refl, Bool, true, false, not, ◌||◌, ◌&&◌, List, [], ◌∷◌, String, none, str_eq, eq_iff,
  eq_refl, if◌then◌else◌, arith, Bool-cases, inl, inr, All,
}
use text.Mathlib.TextLemmas.{nil-append, cons-append}
use big_blackbox_exporter.Base.Dict.{lookup, NodupKeys}
use big_blackbox_exporter.Main.Url.{ends_with, trim_slash, route_prefix}

-- The handlers of the endpoints.
pub data Route : Type 0 where
  root_route reload_route metrics_route healthy_route probe_route front_route : Route
  logs_route config_route : Route

abbrev pub below_prefix :
    (join : String → String → String) → (prefix : String) → List (String × Route)
below_prefix join prefix =
    (join prefix "/-/reload", reload_route)
    ∷ (join prefix "/metrics", metrics_route)
    ∷ (join prefix "/-/healthy", healthy_route)
    ∷ (join prefix "/probe", probe_route)
    ∷ (prefix, front_route)
    ∷ (join prefix "/logs", logs_route)
    ∷ (join prefix "/config", config_route)
    ∷ []

-- The calls of `http.HandleFunc` and `http.Handle` in their order.
unfoldable pub routes :
    (join : String → String → String) → (prefix : String) → List (String × Route)
routes join prefix =
    if not (str_eq prefix "/")
    then ("/", root_route) ∷ below_prefix join prefix
    else below_prefix join prefix

-- A text with two ends: one of them is an end of the other.
ends_with_both :
    (s a b : String)
    → ends_with s a ≡ true
    → ends_with s b ≡ true
    → (ends_with a b || ends_with b a) ≡ true
unfolding ends_with
ends_with_both String.[] a b ha hb =
    let empty : "" ≡ a = (eq_iff "" a).0 ha in rw (← empty) (ground (arith, hb))
ends_with_both (String.◌∷◌ c s) a b ha hb = elim (Bool-cases (str_eq (String.◌∷◌ c s) a)) [
  | inl whole ↦ rw (← (eq_iff (String.◌∷◌ c s) a).0 whole) (ground (arith, hb))
  | inr part_a ↦ elim (Bool-cases (str_eq (String.◌∷◌ c s) b)) [
    | inl whole ↦ rw (← (eq_iff (String.◌∷◌ c s) b).0 whole) (ground (arith, ha))
    | inr part_b ↦ ends_with_both s a b (ground arith) (ground arith)
  ]
]

pub ends_with-append : (s suffix : String) → ends_with (s <> suffix) suffix ≡ true
unfolding ends_with
ends_with-append String.[] suffix = rw (nil-append suffix) (ends_with_self suffix)
  where
    ends_with_self : (s : String) → ends_with s s ≡ true
    ends_with_self String.[] = refl
    ends_with_self (String.◌∷◌ c s) = rw (eq_refl (String.◌∷◌ c s)) refl
ends_with-append (String.◌∷◌ c s) suffix =
    rw (cons-append c s suffix) (ground (arith, ends_with-append s suffix))

route_prefix-ends_with :
    (flag url_path : String) → ends_with (route_prefix flag url_path) "/" ≡ true
unfolding route_prefix
route_prefix-ends_with flag url_path = elim (Bool-cases (str_eq prefix "/")) [
  | inl root ↦ rw root (rw ((eq_iff prefix "/").0 root) ends)
  | inr other ↦ rw other (ends_with-append prefix "/")
]
  where
    prefix : String
    prefix = "/" <> trim_slash (if str_eq flag "" then url_path else flag)

    ends : ends_with "/" "/" ≡ true
    ends = ends_with-append "" "/"

-- No end is that of another.
abbrev related : String → String → Bool
related a b = ends_with a b || ends_with b a

abbrev unrelated_to : String → List String → Bool
unrelated_to a [] = true
unrelated_to a (b ∷ ends) = not (related a b) && unrelated_to a ends

abbrev unrelated : List String → Bool
unrelated [] = true
unrelated (a ∷ ends) = unrelated_to a ends && unrelated ends

-- Each pattern with its end.
abbrev Aligned : List (String × Route) → List String → Type 0
Aligned [] [] = Unit
Aligned ((pattern, _) ∷ rs) (a ∷ ends) = (ends_with pattern a ≡ true) × Aligned rs ends
Aligned _ _ = ⊥

lookup-eq-none :
    (key a : String) (rs : List (String × Route)) (ends : List String)
    → ends_with key a ≡ true
    → Aligned rs ends
    → unrelated_to a ends ≡ true
    → lookup key rs ≡ none
unfolding lookup
lookup-eq-none key a [] [] h aligned free = refl
lookup-eq-none key a [] (b ∷ ends) h aligned free = refl
lookup-eq-none key a ((pattern, r) ∷ rs) [] h aligned free = absurd aligned
lookup-eq-none key a ((pattern, r) ∷ rs) (b ∷ ends) h (ends_in_b, aligned) free =
    elim (Bool-cases (str_eq pattern key)) [
      | inl same ↦
          let in_b : ends_with key b ≡ true = rw (← (eq_iff pattern key).0 same) ends_in_b in
          absurd (ground (arith, ends_with_both key a b h in_b))
      | inr other ↦ rw other (lookup-eq-none key a rs ends h aligned (ground arith))
    ]

Aligned-NodupKeys :
    (rs : List (String × Route)) (ends : List String)
    → Aligned rs ends
    → unrelated ends ≡ true
    → NodupKeys rs
Aligned-NodupKeys [] ends aligned free = tt
Aligned-NodupKeys ((pattern, r) ∷ rs) [] aligned free = absurd aligned
Aligned-NodupKeys ((pattern, r) ∷ rs) (a ∷ ends) (h, aligned) free = (
  lookup-eq-none pattern a rs ends h aligned (ground arith),
  Aligned-NodupKeys rs ends aligned (ground arith),
)

-- The endpoints that are joined to the prefix.
abbrev endpoints : List String
endpoints = "/-/reload" ∷ "/metrics" ∷ "/-/healthy" ∷ "/probe" ∷ "/logs" ∷ "/config" ∷ []

-- A path that is joined from a prefix and an endpoint ends with the endpoint.
abbrev pub Joins : (join : String → String → String) → Type 0
Joins join =
    All (λ endpoint. (prefix : String) → ends_with (join prefix endpoint) endpoint ≡ true) endpoints

-- Another end than a slash makes another pattern than "/".
no_root :
    (pattern a : String)
    → ends_with pattern a ≡ true
    → related a "/" ≡ false
    → str_eq pattern "/" ≡ false
no_root pattern a h free = elim (Bool-cases (str_eq pattern "/")) [
  | inl same ↦
      let in_root : ends_with "/" a ≡ true = rw (← (eq_iff pattern "/").0 same) h in
      absurd (ground arith)
  | inr other ↦ other
]

module _ (join : String → String → String) (joins : Joins join) (prefix : String)
    (slash : ends_with prefix "/" ≡ true) where
  abbrev ends : List String
  ends = "/-/reload" ∷ "/metrics" ∷ "/-/healthy" ∷ "/probe" ∷ "/" ∷ "/logs" ∷ "/config" ∷ []

  below_prefix-Aligned : Aligned (below_prefix join prefix) ends
  below_prefix-Aligned =
      let (reload, (metrics, (healthy, (probe, (logs, (config, end)))))) = joins in
      (
        reload prefix,
        (
          metrics prefix,
          (healthy prefix, (probe prefix, (slash, (logs prefix, (config prefix, tt))))),
        ),
      )

  below_prefix-NodupKeys : NodupKeys (below_prefix join prefix)
  unfolding ends_with
  below_prefix-NodupKeys =
      Aligned-NodupKeys (below_prefix join prefix) ends below_prefix-Aligned refl

  lookup-root : str_eq prefix "/" ≡ false → lookup "/" (below_prefix join prefix) ≡ none
  unfolding lookup ends_with
  lookup-root other =
      let (reload, (metrics, (healthy, (probe, (logs, (config, end)))))) = joins in
      rw
        (
          other,
          no_root (join prefix "/-/reload") "/-/reload" (reload prefix) refl,
          no_root (join prefix "/metrics") "/metrics" (metrics prefix) refl,
          no_root (join prefix "/-/healthy") "/-/healthy" (healthy prefix) refl,
          no_root (join prefix "/probe") "/probe" (probe prefix) refl,
          no_root (join prefix "/logs") "/logs" (logs prefix) refl,
          no_root (join prefix "/config") "/config" (config prefix) refl,
        )
        refl

-- No pattern is registered twice, which would be a panic, whatever the flags say: the patterns of
-- all endpoints differ, with the prefix that the flag or the path of the external URL gives.
-- Assumed of `path.Join` is that a path joined from a prefix and an endpoint ends with the
-- endpoint.
pub routes-NodupKeys :
    (join : String → String → String) (flag url_path : String)
    → Joins join
    → NodupKeys (routes join (route_prefix flag url_path))
unfolding routes
routes-NodupKeys join flag url_path joins =
    let slash = route_prefix-ends_with flag url_path in
    elim (Bool-cases (str_eq (route_prefix flag url_path) "/")) [
      | inl root ↦ rw root (below_prefix-NodupKeys join joins _ slash)
      | inr other ↦
          rw other (lookup-root join joins _ slash other, below_prefix-NodupKeys join joins _ slash)
    ]
