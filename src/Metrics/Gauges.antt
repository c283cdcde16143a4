-- ===== src/Metrics/Gauges.antt =====
-- The value of a gauge that has just been set.
use big_blackbox_exporter.Base.{◌≡◌, refl, true, List, [], ◌∷◌, String, some, eq_refl}
use big_blackbox_exporter.Metrics.{Registry, labels_eq, value_of}

pub labels_eq_refl : (labels : List String) → labels_eq labels labels ≡ true
labels_eq_refl [] = refl
labels_eq_refl (l ∷ labels) = rw (eq_refl l) (labels_eq_refl labels)

pub value_of-set :
    {V : Type 0} (name : String) (labels : List String) (v : V) (reg : Registry V)
    → value_of name labels
        (record reg { samples = record { name = name; labels = labels; value = v } ∷ reg.samples })
      ≡ some v
value_of-set name labels v reg = rw (eq_refl name, labels_eq_refl labels) refl
