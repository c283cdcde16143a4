-- ===== src/History/Lookup.antt =====
-- Finding a result in the history again, by its id and by its target.
use mathlib.Core.List.{Memᴰ}
use big_blackbox_exporter.Base.{
  ℕ, zero, suc, ◌+◌, ◌^◌, ◌≤◌, ◌<◌, ◌≡◌, ◌≢◌, refl, ap, sym, ◌∙◌, Bool, List, [], ◌∷◌, ◌++◌, String,
  arith, length, drop, keep, Option, some, none, str_eq, eq_iff, All, take-append-drop, inl, inr,
  Bool-cases, false,
}
use big_blackbox_exporter.Base.Int.{pos, eqb_ℤ, eqb_ℤ_iff}
use big_blackbox_exporter.History.{
  Result, ResultHistory, increment, new_history, list, first, or_else, get_by_id, get_by_target,
}
use big_blackbox_exporter.History.Window.{expired}
use big_blackbox_exporter.History.Refinement.{
  failed, Represents, Entry, add_all, trace, add_all-Represents,
}

-- The ids are not negative, go up from `low`, and no two are equal.
abbrev pub Ascends : ℕ → List Result → Type 0
Ascends low [] = Unit
Ascends low (r ∷ rs) = (k : ℕ) × (r.id ≡ pos k) × (low ≤ k) × Ascends (suc k) rs

Ascends-from : (low low' : ℕ) (rs : List Result) → low ≤ low' → Ascends low' rs → Ascends low rs
Ascends-from low low' [] h a = tt
Ascends-from low low' (r ∷ rs) h (k, e, l, a) = (k, e, omega arith, a)

Ascends-drop :
    (low n : ℕ) (xs ys : List Result) → Ascends low (xs ++ ys) → Ascends low (drop n xs ++ ys)
Ascends-drop low zero xs ys a = a
Ascends-drop low (suc n) [] ys a = a
Ascends-drop low (suc n) (x ∷ xs) ys (k, e, l, a) =
    Ascends-from low (suc k) _ (omega arith) (Ascends-drop (suc k) n xs ys a)

Ascends-keep :
    (low : ℕ) (p : Result → Bool) (xs ys : List Result)
    → Ascends low (xs ++ ys)
    → Ascends low (keep p xs ++ ys)
Ascends-keep low p [] ys a = a
Ascends-keep low p (x ∷ xs) ys (k, e, l, a) =
    let rest = Ascends-keep (suc k) p xs ys a in
    elim (Bool-cases (p x)) [
      | inl yes_p ↦ rw yes_p (k, e, l, rest)
      | inr no_p ↦ rw no_p (Ascends-from low (suc k) _ (omega arith) rest)
    ]

increment_small : (k : ℕ) → suc k < 2 ^ 63 → increment (pos k) ≡ pos (suc k)
increment_small k h = ground arith

pub Ascends-trace :
    (k : ℕ) (es : List Entry) → k + length es ≤ 2 ^ 63 → Ascends k (trace (pos k) es)
unfolding trace
Ascends-trace k [] h = tt
Ascends-trace k (e ∷ []) h = (k, refl, omega arith, tt)
Ascends-trace k (e ∷ e' ∷ es) h = (
  k,
  refl,
  omega arith,
  rw (increment_small k (omega arith)) (Ascends-trace (suc k) (e' ∷ es) (omega arith)),
)

pub Represents-Ascends :
    (n : ℕ) (rh : ResultHistory) (t : List Result)
    → Represents n rh t
    → Ascends 0 t
    → Ascends 0 (list rh)
unfolding list
Represents-Ascends n rh t h a =
    rw (h.recent, h.failures)
      (Ascends-drop 0 _ (keep failed (expired n t)) _
        (Ascends-keep 0 failed (expired n t) _ (rw take-append-drop a)))

-- Two loops one after the other are one loop over both lists.
first-append :
    (test : Result → Bool) (xs ys : List Result)
    → or_else (first test xs) (first test ys) ≡ first test (xs ++ ys)
unfolding first
first-append test [] ys = refl
first-append test (x ∷ xs) ys = ground (arith, first-append test xs ys)

pub Ascends-lt :
    (low : ℕ) (r : Result) (rs : List Result)
    → Ascends low rs
    → Memᴰ r rs
    → (k : ℕ) × (r.id ≡ pos k) × (low ≤ k)
Ascends-lt low r [] a m = elim m [ ]
Ascends-lt low r (x ∷ rs) (k, e, l, a) (Memᴰ.head same) = (k, rw same e, l)
Ascends-lt low r (x ∷ rs) (k, e, l, a) (Memᴰ.tail m) =
    let (j, e', l') = Ascends-lt (suc k) r rs a m in (j, e', omega arith)

first-Ascends :
    (low : ℕ) (r : Result) (rs : List Result)
    → Ascends low rs
    → Memᴰ r rs
    → first (λ x. eqb_ℤ x.id r.id) rs ≡ some r
unfolding first
first-Ascends low r [] a m = elim m [ ]
first-Ascends low r (x ∷ rs) (k, e, l, a) (Memᴰ.head same) =
    rw ((eqb_ℤ_iff x.id r.id).1 (ap (λ (y : Result). y.id) (sym same))) (ap some (sym same))
first-Ascends low r (x ∷ rs) (k, e, l, a) (Memᴰ.tail m) =
    let (j, e', l') = Ascends-lt (suc k) r rs a m in
    let other : eqb_ℤ x.id r.id ≡ false = rw (e, e') (ground arith) in
    rw other (first-Ascends (suc k) r rs a m)

-- Every result that `List` returns is the one that `GetById` returns for its id, as long as fewer
-- than 2 ^ 63 results were added after the first.
pub get_by_id-list :
    (n : ℕ) (es : List Entry) (r : Result)
    → length es ≤ 2 ^ 63
    → Memᴰ r (list (add_all es (new_history n)))
    → get_by_id r.id (add_all es (new_history n)) ≡ some r
unfolding list get_by_id
get_by_id-list n es r h m =
    let rh = add_all es (new_history n) in
    let a =
      Represents-Ascends n rh _ (add_all-Represents n es) (Ascends-trace 0 es (omega arith)) in
    first-append (λ x. eqb_ℤ x.id r.id) rh.preserved_failed_results rh.results
    ∙ first-Ascends 0 r _ a m

abbrev pub IsFirst : String → List Result → Option Result → Type 0
IsFirst target rs none = All (λ r. r.target ≢ target) rs
IsFirst target rs (some r) =
    (before after : List Result) × (rs ≡ before ++ r ∷ after)
    × All (λ x. x.target ≢ target) before
    × (r.target ≡ target)

IsFirst-cons :
    (target : String) (x : Result) (rs : List Result) (o : Option Result)
    → x.target ≢ target
    → IsFirst target rs o
    → IsFirst target (x ∷ rs) o
IsFirst-cons target x rs none ne h = (ne, h)
IsFirst-cons target x rs (some r) ne (before, after, e, h, same) =
    (x ∷ before, after, ap (λ l. x ∷ l) e, (ne, h), same)

first-IsFirst :
    (target : String) (rs : List Result)
    → IsFirst target rs (first (λ r. str_eq r.target target) rs)
unfolding first
first-IsFirst target [] = tt
first-IsFirst target (x ∷ rs) = elim (Bool-cases (str_eq x.target target)) [
  | inl same ↦ rw same ([], rs, refl, tt, (eq_iff x.target target).0 same)
  | inr other ↦ rw other (
      IsFirst-cons target x rs _ (λ e. cc ((eq_iff x.target target).1 e)) (first-IsFirst target rs))
]

-- `GetByTarget` returns the first result for the target in the list that `List` returns, failures
-- that were preserved before recent results, and nothing exactly where that list has none.
pub get_by_target-IsFirst :
    (target : String) (rh : ResultHistory) → IsFirst target (list rh) (get_by_target target rh)
unfolding list get_by_target
get_by_target-IsFirst target rh =
    rw (first-append (λ r. str_eq r.target target) rh.preserved_failed_results rh.results)
      (first-IsFirst target (rh.preserved_failed_results ++ rh.results))
