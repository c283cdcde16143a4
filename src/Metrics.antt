-- ===== src/Metrics.antt =====
-- The part of prometheus/client_golang that a probe works on: the collectors that are registered
-- in the probe's registry and the values of its gauges.
--
-- A gauge is named by its metric and its label values. It starts at 0 when it is made, and
-- `MustRegister` panics on a name that is registered already. A probe is a computation over this
-- state, which ends with a result or in a panic.
pub mod Inversion
pub mod Gauges
pub mod Unset
pub mod Ending
pub mod Verdicts
use big_blackbox_exporter.Base.{
  ℕ, ◌≡◌, refl, Bool, true, false, ◌&&◌, ◌||◌, List, [], ◌∷◌, String, Option, some, none, str_eq,
  if◌then◌else◌,
}

pub record Sample (V : Type 0) : Type 0 where
  pub name : String
  pub labels : List String
  pub value : V

pub record Registry (V : Type 0) : Type 0 where
  pub registered : List String
  pub samples : List (Sample V)

abbrev pub new_registry : {V : Type 0} → Registry V
new_registry = record { registered = []; samples = [] }

pub data Outcome (V A : Type 0) : Type 0 where
  done : A → Registry V → Outcome V A
  panic : Outcome V A

abbrev pub Probe : Type 0 → Type 0 → Type 0
Probe V A = Registry V → Outcome V A

abbrev pub contains : String → List String → Bool
contains name [] = false
contains name (n ∷ names) = str_eq n name || contains name names

abbrev pub labels_eq : List String → List String → Bool
labels_eq [] [] = true
labels_eq (a ∷ more) (b ∷ others) = str_eq a b && labels_eq more others
labels_eq _ _ = false

-- `err == nil`
abbrev pub is_nil : {A : Type 0} → Option A → Bool
is_nil none = true
is_nil (some _) = false

module _ {V : Type 0} where
  abbrev pub and_then : {A B : Type 0} → Outcome V A → (A → Probe V B) → Outcome V B
  and_then (done a reg) f = f a reg
  and_then panic f = panic

  infixl 5 ◌>>=◌ ◌>>◌
  abbrev pub ◌>>=◌ : {A B : Type 0} → Probe V A → (A → Probe V B) → Probe V B
  ◌>>=◌ m f reg = and_then (m reg) f

  abbrev pub ◌>>◌ : {B : Type 0} → Probe V (Unit {0}) → Probe V B → Probe V B
  ◌>>◌ m k reg = and_then (m reg) (λ _. k)

  abbrev pub return : {A : Type 0} → A → Probe V A
  return a reg = done a reg

  -- A nil dereference, an index out of range, a failed type assertion.
  abbrev pub fault : {A : Type 0} → Probe V A
  fault reg = panic

  -- `if !ok { return false }`, and otherwise the rest.
  unfoldable pub ensure : Bool → Probe V Bool → Probe V Bool
  ensure true k = k
  ensure false k = return false

  -- `if err != nil { return false }`, and otherwise the rest with the value.
  unfoldable pub or_fail : {A : Type 0} → Option A → (A → Probe V Bool) → Probe V Bool
  or_fail none k = return false
  or_fail (some a) k = k a

  -- A pointer that is dereferenced.
  unfoldable pub or_fault : {A B : Type 0} → Option A → (A → Probe V B) → Probe V B
  or_fault none k = fault
  or_fault (some a) k = k a

  -- `registry.MustRegister` of one collector.
  unfoldable pub must_register : String → Probe V (Unit {0})
  must_register name reg =
      if contains name reg.registered
      then panic
      else done tt (record reg { registered = name ∷ reg.registered })

  unfoldable pub must_register_all : List String → Probe V (Unit {0})
  unfolding must_register
  must_register_all [] = return tt
  must_register_all (name ∷ names) = must_register name >> must_register_all names

  -- `gauge.Set`, and `vec.WithLabelValues(labels...).Set`
  abbrev pub set_gauge : String → List String → V → Probe V (Unit {0})
  set_gauge name labels v reg =
      done tt
        (record reg { samples = record { name = name; labels = labels; value = v } ∷ reg.samples })

  -- The last value that was set.
  abbrev pub find_sample : String → List String → List (Sample V) → Option V
  find_sample name labels [] = none
  find_sample name labels (s ∷ ss) =
      if str_eq s.name name && labels_eq s.labels labels
      then some s.value
      else find_sample name labels ss

  abbrev pub value_of : String → List String → Registry V → Option V
  value_of name labels reg = find_sample name labels reg.samples

  abbrev pub or_zero : V → Option V → V
  or_zero zero none = zero
  or_zero zero (some v) = v

  -- `gauge.Add`
  abbrev pub add_gauge : (V → V → V) → V → String → List String → V → Probe V (Unit {0})
  add_gauge plus zero name labels v reg =
      set_gauge name labels (plus (or_zero zero (value_of name labels reg)) v) reg

  -- `vec.WithLabelValues(labels...)` alone makes the gauge, at 0.
  abbrev pub with_labels : V → String → List String → Probe V (Unit {0})
  with_labels zero name labels reg =
      set_gauge name labels (or_zero zero (value_of name labels reg)) reg
