-- ===== src/Config/Patterns.antt =====
-- config/config.go: `Regexp`, the regular expressions of a configuration.
--
-- A compiled expression is given by its source, which its `String` method returns. `compiles`
-- says which texts `regexp.Compile` accepts; it returns nil for the others.
use big_blackbox_exporter.Base.{
  ◌≡◌, ◌≢◌, ◌⊎◌, refl, eq_iff, sym, ap, Bool, not, String, Option, some, none, str_eq,
  if◌then◌else◌, arith, Bool-cases, inl, inr,
}
use big_blackbox_exporter.Config.{Regexp}
use big_blackbox_exporter.Config.Unmarshal.{Result, ok, err, ok_injective}

module _ (compiles : String → Bool) where
  -- The expression, and whether it came without an error.
  unfoldable pub new_regexp : String → Regexp × Bool
  new_regexp s = (record { regexp = if compiles s then some s else none; original = s }, compiles s)

  -- `Regexp.UnmarshalYAML`: the argument is the text that yaml.v3 decodes.
  unfoldable pub unmarshal_regexp : Result String → Result Regexp
  unfolding new_regexp
  unmarshal_regexp (err e) = err e
  unmarshal_regexp (ok s) =
      if not (new_regexp s).1
      then err "\"Could not compile regular expression\""
      else ok (new_regexp s).0

  -- `MustNewRegexp`, where none is the panic.
  unfoldable pub must_new_regexp : String → Option Regexp
  unfolding new_regexp
  must_new_regexp s = if not (new_regexp s).1 then none else some (new_regexp s).0

-- `Regexp.MarshalYAML`: the text, or nil.
unfoldable pub marshal_regexp : Regexp → Option String
marshal_regexp re = if not (str_eq re.original "") then some re.original else none

decoded_text :
    (compiles : String → Bool) (s : String) (re : Regexp)
    → unmarshal_regexp compiles (ok s) ≡ ok re
    → re.original ≡ s
unfolding unmarshal_regexp new_regexp
decoded_text compiles s re h = elim (Bool-cases (compiles s)) [
  | inl fine ↦
      let decoded : Regexp = record { regexp = some s; original = s } in
      let same : decoded ≡ re = ok_injective (ground arith) in
      sym (ap {A = Regexp} (λ r. r.original) same)
  | inr bad ↦ absurd (ground arith)
]

-- A decoded expression is written as the text that it was decoded from, which decodes to the same
-- expression again, but for the empty text: its expression is written as nil.
pub unmarshal_regexp-marshal_regexp :
    (compiles : String → Bool) (s : String) (re : Regexp)
    → unmarshal_regexp compiles (ok s) ≡ ok re
    → ((s ≡ "") × (marshal_regexp re ≡ none))
      ⊎ ((s ≢ "")
          × (text : String) × (marshal_regexp re ≡ some text)
          × (text ≡ s)
          × (unmarshal_regexp compiles (ok text) ≡ ok re))
unfolding marshal_regexp
unmarshal_regexp-marshal_regexp compiles s re h =
    let same : re.original ≡ s = decoded_text compiles s re h in
    elim (Bool-cases (str_eq s "")) [
      | inl empty ↦ inl ((eq_iff s "").0 empty, rw (same, empty) refl)
      | inr text ↦ inr (ground (arith, eq_iff s ""), s, rw (same, text) refl, refl, h)
    ]
