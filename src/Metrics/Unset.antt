-- ===== src/Metrics/Unset.antt =====
-- Computations that leave the gauge `probe_success` to the handler.
use big_blackbox_exporter.Base.{
  ◌≡◌, Bool, true, false, List, [], ◌∷◌, String, none, if◌then◌else◌, Bool-cases, inl, inr,
}
use big_blackbox_exporter.Metrics.{
  Registry, Outcome, Probe, and_then, contains, value_of, must_register, must_register_all,
}
use big_blackbox_exporter.Metrics.Inversion.{Partly, Partly-bind}

module _ {V : Type 0} where
  abbrev pub IsUnset : Registry V → Type 0
  IsUnset reg = value_of "probe_success" [] reg ≡ none

  abbrev pub Unset : {A : Type 0} → A → Registry V → Type 0
  Unset a reg = IsUnset reg

  pub Partly-if :
      {A : Type 0} (P : A → Registry V → Type 0) (b : Bool) (m k : Probe V A) (reg : Registry V)
      → Partly P (m reg)
      → Partly P (k reg)
      → Partly P ((if b then m else k) reg)
  Partly-if P true m k reg h other = h
  Partly-if P false m k reg other h = h

  -- A step that leaves the gauge unset, and what follows it.
  pub Unset-bind :
      {A B : Type 0} (o : Outcome V A) (f : A → Probe V B)
      → Partly Unset o
      → ((a : A) (reg : Registry V) → IsUnset reg → Partly Unset (f a reg))
      → Partly Unset (and_then o f)
  Unset-bind o f h more = Partly-bind Unset Unset o f h more

  pub Unset-register_all :
      (names : List String) (reg : Registry V)
      → IsUnset reg
      → Partly Unset (must_register_all names reg)
  unfolding must_register_all must_register
  Unset-register_all [] reg u = u
  Unset-register_all (name ∷ names) reg u = elim (Bool-cases (contains name reg.registered)) [
    | inl twice ↦ rw twice tt
    | inr new ↦ rw new (Unset-register_all names _ u)
  ]
