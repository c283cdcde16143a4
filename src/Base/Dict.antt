-- ===== src/Base/Dict.antt =====
-- A Go map with text keys, as an association list.
use Prim.Native.String.{String}
use mathlib.Core.Bool.{Bool, true, false}
use mathlib.Core.Path.{◌≡◌, refl}
use mathlib.Core.Logic.{inl, inr}
use mathlib.Core.Option.{Option, none, some}
use mathlib.Core.List.{List, [], ◌∷◌}
use native.Mathlib.Omega.{arith}
use text.Mathlib.Text.{◌==◌ as str_eq}
use text.Mathlib.TextEquality.{eq_iff}
use big_blackbox_exporter.Base.Tests.{Bool-cases, if◌then◌else◌}

module _ {ℓ} {V : Type ℓ} where
  -- `value, ok := entries[key]`
  unfoldable pub lookup : (key : String) (entries : List (String × V)) → Option V
  lookup key [] = none
  lookup key ((name, value) ∷ entries) = if str_eq name key then some value else lookup key entries

  abbrev pub replace :
      Bool → (String × V) → (String × V) → (entries others : List (String × V)) → List (String × V)
  replace true new old entries others = new ∷ entries
  replace false new old entries others = old ∷ others

  -- `entries[key] = value`
  unfoldable pub insert :
      (key : String) (value : V) (entries : List (String × V)) → List (String × V)
  insert key value [] = (key, value) ∷ []
  insert key value ((name, old) ∷ entries) =
      replace (str_eq name key) (key, value) (name, old) entries (insert key value entries)

  pub lookup-insert :
      (key other : String) (value : V) (entries : List (String × V))
      → lookup other (insert key value entries)
        ≡ (if str_eq key other then some value else lookup other entries)
  unfolding lookup insert
  lookup-insert key other value [] = refl
  lookup-insert key other value ((name, old) ∷ entries) =
      let rest = lookup-insert key other value entries in
      elim (Bool-cases (str_eq name key)) [
        | inl same ↦ rw same (ground (arith, eq_iff name key, eq_iff key other, eq_iff name other))
        | inr apart ↦
            rw (apart, rest) (ground (arith, eq_iff name key, eq_iff key other, eq_iff name other))
      ]

  -- A map has each key once.
  abbrev pub NodupKeys : List (String × V) → Type ℓ
  NodupKeys [] = Unit
  NodupKeys ((k, _) ∷ m) = (lookup k m ≡ none) × NodupKeys m
