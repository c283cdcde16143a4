-- ===== src/Metrics/Inversion.antt =====
-- What a probe that ended has done: inversion of the steps that it is made of.
use mathlib.Core.Path.{subst}
use big_blackbox_exporter.Base.{
  ◌≡◌, refl, Bool, true, false, ◌∷◌, String, Option, some, none, Bool-cases, inl, inr,
}
use big_blackbox_exporter.Metrics.{
  Registry, Outcome, done, panic, Probe, and_then, contains, must_register, ensure, or_fail,
  or_fault,
}

module _ {V A B : Type 0} where
  pub and_then-eq-done :
      (o : Outcome V A) (f : A → Probe V B) {b : B} {reg' : Registry V}
      → and_then o f ≡ done b reg'
      → (a : A) × (reg : Registry V) × (o ≡ done a reg) × (f a reg ≡ done b reg')
  and_then-eq-done (done a reg) f h = (a, reg, refl, h)
  and_then-eq-done panic f h = cc

module _ {V : Type 0} where
  pub ensure-eq-true :
      (b : Bool) (k : Probe V Bool) (reg : Registry V) {reg' : Registry V}
      → ensure b k reg ≡ done true reg'
      → (b ≡ true) × (k reg ≡ done true reg')
  unfolding ensure
  ensure-eq-true true k reg h = (refl, h)
  ensure-eq-true false k reg h = cc

  pub or_fail-eq-true :
      {A : Type 0} (o : Option A) (k : A → Probe V Bool) (reg : Registry V) {reg' : Registry V}
      → or_fail o k reg ≡ done true reg'
      → (a : A) × (o ≡ some a) × (k a reg ≡ done true reg')
  unfolding or_fail
  or_fail-eq-true none k reg h = cc
  or_fail-eq-true (some a) k reg h = (a, refl, h)

  pub or_fault-eq-done :
      {A B : Type 0} (o : Option A) (k : A → Probe V B) (reg : Registry V) {b : B}
      {reg' : Registry V}
      → or_fault o k reg ≡ done b reg'
      → (a : A) × (o ≡ some a) × (k a reg ≡ done b reg')
  unfolding or_fault
  or_fault-eq-done none k reg h = cc
  or_fault-eq-done (some a) k reg h = (a, refl, h)

module _ {V A : Type 0} where
  -- The outcome is no panic, and the postcondition holds of it.
  abbrev pub Ends : (A → Registry V → Type 0) → Outcome V A → Type 0
  Ends P panic = ⊥
  Ends P (done a reg) = P a reg

  -- The postcondition holds of the outcome, if it is no panic.
  abbrev pub Partly : (A → Registry V → Type 0) → Outcome V A → Type 0
  Partly P panic = Unit
  Partly P (done a reg) = P a reg

  pub Partly-elim :
      (P : A → Registry V → Type 0) (o : Outcome V A) {a : A} {reg : Registry V}
      → Partly P o
      → o ≡ done a reg
      → P a reg
  Partly-elim P panic h e = cc
  Partly-elim P (done a reg) h e = subst (Partly P) e h

module _ {V A B : Type 0} where
  pub Partly-bind :
      (P : A → Registry V → Type 0) (Q : B → Registry V → Type 0) (o : Outcome V A)
      (f : A → Probe V B)
      → Partly P o
      → ((a : A) (reg : Registry V) → P a reg → Partly Q (f a reg))
      → Partly Q (and_then o f)
  Partly-bind P Q panic f h k = tt
  Partly-bind P Q (done a reg) f h k = k a reg h

module _ {V : Type 0} (P : Bool → Registry V → Type 0) where
  pub Partly-or_fail :
      {A : Type 0} (o : Option A) (k : A → Probe V Bool) (reg : Registry V)
      → P false reg
      → ((a : A) → o ≡ some a → Partly P (k a reg))
      → Partly P (or_fail o k reg)
  unfolding or_fail
  Partly-or_fail none k reg h step = h
  Partly-or_fail (some a) k reg h step = step a refl

  pub Partly-ensure :
      (b : Bool) (k : Probe V Bool) (reg : Registry V)
      → P false reg
      → (b ≡ true → Partly P (k reg))
      → Partly P (ensure b k reg)
  unfolding ensure
  Partly-ensure true k reg h step = step refl
  Partly-ensure false k reg h step = h

module _ {V B : Type 0} (P : B → Registry V → Type 0) where
  pub Partly-register :
      (name : String) (f : Unit {0} → Probe V B) (reg : Registry V)
      → Partly P (f tt (record reg { registered = name ∷ reg.registered }))
      → Partly P (and_then (must_register name reg) f)
  unfolding must_register
  Partly-register name f reg h = elim (Bool-cases (contains name reg.registered)) [
    | inl twice ↦ rw twice tt
    | inr new ↦ rw new h
  ]

  pub Partly-or_fault :
      {A : Type 0} (o : Option A) (k : A → Probe V B) (reg : Registry V)
      → ((a : A) → o ≡ some a → Partly P (k a reg))
      → Partly P (or_fault o k reg)
  unfolding or_fault
  Partly-or_fault none k reg step = tt
  Partly-or_fault (some a) k reg step = step a refl

module _ {V A : Type 0} where
  pub Partly-weaken :
      (P Q : A → Registry V → Type 0) (o : Outcome V A)
      → Partly P o
      → ((a : A) (reg : Registry V) → P a reg → Q a reg)
      → Partly Q o
  Partly-weaken P Q panic h step = tt
  Partly-weaken P Q (done a reg) h step = step a reg h

module _ {V A B : Type 0} where
  -- A step of which nothing need be known.
  pub Partly-skip :
      (P : B → Registry V → Type 0) (o : Outcome V A) (f : A → Probe V B)
      → ((a : A) (reg : Registry V) → Partly P (f a reg))
      → Partly P (and_then o f)
  Partly-skip P panic f step = tt
  Partly-skip P (done a reg) f step = step a reg

  -- A step of which the outcome is kept.
  pub Partly-step :
      (P : B → Registry V → Type 0) (o : Outcome V A) (f : A → Probe V B)
      → ((a : A) (reg : Registry V) → o ≡ done a reg → Partly P (f a reg))
      → Partly P (and_then o f)
  Partly-step P panic f step = tt
  Partly-step P (done a reg) f step = step a reg refl

module _ {V A I : Type 0} where
  -- Postconditions for each index hold at once.
  pub Partly-all :
      (P : I → A → Registry V → Type 0) (o : Outcome V A)
      → ((i : I) → Partly (P i) o)
      → Partly (λ a reg. (i : I) → P i a reg) o
  Partly-all P panic h = tt
  Partly-all P (done a reg) h = h
