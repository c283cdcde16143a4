-- ===== src/Metrics/Verdicts.antt =====
-- Probes that end with a verdict which is known beforehand.
use big_blackbox_exporter.Base.{◌≡◌, refl, Bool, true, false, ◌&&◌, Option, some, none}
use big_blackbox_exporter.Metrics.{Registry, Probe, ensure, or_fail}
use big_blackbox_exporter.Metrics.Inversion.{Ends}

-- A test of what is there; nothing fails it.
abbrev pub has : {A : Type 0} → Option A → (A → Bool) → Bool
has none test = false
has (some a) test = test a

module _ {V : Type 0} where
  -- The probe ends with this verdict.
  abbrev pub Gives : Bool → Bool → Registry V → Type 0
  Gives verdict success reg = success ≡ verdict

  pub or_fail-Gives :
      {A : Type 0} (o : Option A) (k : A → Probe V Bool) (test : A → Bool) (reg : Registry V)
      → ((a : A) → o ≡ some a → Ends (Gives (test a)) (k a reg))
      → Ends (Gives (has o test)) (or_fail o k reg)
  unfolding or_fail
  or_fail-Gives none k test reg step = refl
  or_fail-Gives (some a) k test reg step = step a refl

  pub ensure-Gives :
      (b : Bool) (k : Probe V Bool) (verdict : Bool) (reg : Registry V)
      → (b ≡ true → Ends (Gives verdict) (k reg))
      → Ends (Gives (b && verdict)) (ensure b k reg)
  unfolding ensure
  ensure-Gives true k verdict reg step = step refl
  ensure-Gives false k verdict reg step = refl
