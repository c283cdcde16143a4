-- ===== src/Float64.antt =====
-- Go's float64, as the operations that the exporter calls on it. The operations are parameters
-- of the definitions that use them; a theorem that needs a fact of IEEE 754 names it.
pub mod Millis
use big_blackbox_exporter.Base.{ℕ, ◌≡◌, Bool, true, false, String, Option}
use big_blackbox_exporter.Base.Int.{ℤ}

pub record Float64 : Type 1 where
  pub Num : Type 0
  -- `float64(n)` of an integer
  pub of_int : ℤ → Num
  pub add : Num → Num → Num
  pub sub : Num → Num → Num
  -- `a < b`
  pub lt : Num → Num → Bool
  -- `a == b`
  pub eq : Num → Num → Bool
  -- `strconv.ParseFloat`: the value, and whether it came without an error
  pub parse : String → Num × Bool
  -- `time.Duration.Seconds`, of nanoseconds
  pub seconds : ℤ → Num

-- The order of IEEE 754: no number is below itself, and no two are below one another.
pub record IsOrdered (fl : Float64) : Type 0 where
  pub lt_irrefl : (a : fl.Num) → fl.lt a a ≡ false
  pub lt_asymm : (a b : fl.Num) → fl.lt a b ≡ true → fl.lt b a ≡ false
