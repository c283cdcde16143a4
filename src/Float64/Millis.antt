-- ===== src/Float64/Millis.antt =====
-- A concrete stand-in for float64, with which the theorems are instantiated.
use big_blackbox_exporter.Base.{◌+◌, ◌-◌, true, false, leb, if◌then◌else◌, str_eq}
use big_blackbox_exporter.Base.Int.{ℤ, pos, negsuc, ltb_ℤ, eqb_ℤ, lt_irrefl, not_lt_of_lt}
use big_blackbox_exporter.Float64.{Float64, IsOrdered}

abbrev pub plus : ℤ → ℤ → ℤ
plus (pos a) (pos b) = pos (a + b)
plus a b = a

abbrev pub minus : ℤ → ℤ → ℤ
minus (pos a) (pos b) = if leb b a then pos (a - b) else negsuc (b - a - 1)
minus a b = a

-- Whole numbers of milliseconds, of which the text "10" alone can be parsed.
abbrev pub millis : Float64
millis = record {
  Num = ℤ;
  of_int = λ n. n;
  add = plus;
  sub = minus;
  lt = ltb_ℤ;
  eq = eqb_ℤ;
  parse = λ s. if str_eq s "10" then (pos 10000, true) else (pos 0, false);
  seconds = λ n. n;
}

pub millis-IsOrdered : IsOrdered millis
millis-IsOrdered = record { lt_irrefl = lt_irrefl; lt_asymm = not_lt_of_lt }
