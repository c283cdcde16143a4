-- ===== src/Metrics/Ending.antt =====
-- Computations that end without a panic, step by step.
use big_blackbox_exporter.Base.{
  ◌≡◌, refl, Bool, true, false, ◌∷◌, String, Option, some, none, if◌then◌else◌,
}
use big_blackbox_exporter.Metrics.{
  Registry, Outcome, done, panic, Probe, and_then, contains, must_register, ensure, or_fail,
}
use big_blackbox_exporter.Metrics.Inversion.{Ends}

module _ {V A B : Type 0} where
  pub Ends-bind :
      (P : A → Registry V → Type 0) (Q : B → Registry V → Type 0) (o : Outcome V A)
      (f : A → Probe V B)
      → Ends P o
      → ((a : A) (reg : Registry V) → P a reg → Ends Q (f a reg))
      → Ends Q (and_then o f)
  Ends-bind P Q panic f h k = absurd h
  Ends-bind P Q (done a reg) f h k = k a reg h

module _ {V B : Type 0} (P : B → Registry V → Type 0) where
  pub Ends-register :
      (name : String) (f : Unit {0} → Probe V B) (reg : Registry V)
      → contains name reg.registered ≡ false
      → Ends P (f tt (record reg { registered = name ∷ reg.registered }))
      → Ends P (and_then (must_register name reg) f)
  unfolding must_register
  Ends-register name f reg new h = rw new h

  pub Ends-if :
      (b : Bool) (m k : Probe V B) (reg : Registry V)
      → Ends P (m reg)
      → Ends P (k reg)
      → Ends P ((if b then m else k) reg)
  Ends-if true m k reg h other = h
  Ends-if false m k reg other h = h

module _ {V : Type 0} (P : Bool → Registry V → Type 0) where
  pub Ends-or_fail :
      {A : Type 0} (o : Option A) (k : A → Probe V Bool) (reg : Registry V)
      → P false reg
      → ((a : A) → o ≡ some a → Ends P (k a reg))
      → Ends P (or_fail o k reg)
  unfolding or_fail
  Ends-or_fail none k reg h step = h
  Ends-or_fail (some a) k reg h step = step a refl

  pub Ends-ensure :
      (b : Bool) (k : Probe V Bool) (reg : Registry V)
      → P false reg
      → (b ≡ true → Ends P (k reg))
      → Ends P (ensure b k reg)
  unfolding ensure
  Ends-ensure true k reg h step = step refl
  Ends-ensure false k reg h step = h
