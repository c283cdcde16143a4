-- ===== src/History/Refinement.antt =====
-- The history as a function of all results ever added: two windows over them.
use big_blackbox_exporter.Base.{
  ℕ, ◌≡◌, refl, sym, Bool, not, List, [], ◌∷◌, ◌++◌, String, arith, ltb, length, take, drop, keep,
  length-append, keep-append, le_or_lt, inl, inr, Bool-cases, true, false,
}
use mathlib.Core.List.{append_assoc, append-nil}
use big_blackbox_exporter.Base.Int.{ℤ, pos}
use big_blackbox_exporter.History.Window.{
  newest, expired, newest_short, expired_short, newest-concat, expired-concat, overfull,
  not_overfull, newest-concat_short, expired-concat_short,
}
use big_blackbox_exporter.History.{
  Result, ResultHistory, append_bounded, evict, add, increment, new_history,
}

abbrev pub failed : Result → Bool
failed r = not r.success

-- What a history with the limit `n` holds that was given the results `t`, in this order.
pub record Represents (n : ℕ) (rh : ResultHistory) (t : List Result) : Type 0 where
  pub limit : rh.max_results ≡ n
  pub recent : rh.results ≡ newest n t
  pub failures : rh.preserved_failed_results ≡ newest n (keep failed (expired n t))

-- A bounded append to a window moves the window.
append_bounded-newest :
    (n : ℕ) (t : List Result) (r : Result)
    → append_bounded n (newest n t) r ≡ newest n (t ++ r ∷ [])
unfolding append_bounded
append_bounded-newest n t r = elim (le_or_lt n (length t)) [
  | inl full ↦ rw (overfull n t r full, newest-concat n t r full)
  | inr room ↦ rw (not_overfull n t r room, newest-concat_short n t r room)
]

-- `evict` moves the first element of the list to the failures, if it failed.
evict-Represents :
    (n : ℕ) (rh : ResultHistory) (rs gone t : List Result)
    → rh.max_results ≡ n
    → rh.preserved_failed_results ≡ newest n (keep failed gone)
    → ltb 0 (length rs) ≡ true
    → newest n t ≡ drop 1 rs
    → expired n t ≡ gone ++ take 1 rs
    → Represents n (evict rh rs) t
unfolding evict
evict-Represents n rh [] gone t limit old some_left recent before = cc
evict-Represents n rh (oldest ∷ rest) gone t limit old some_left recent before = record {
  limit = limit;
  recent = sym recent;
  failures = elim (Bool-cases oldest.success) [
    | inl good ↦ simp (before, keep-append, good, append-nil) old
    | inr bad ↦
        simp (before, keep-append, bad, old, limit)
          (append_bounded-newest n (keep failed gone) oldest)
  ];
}

evict-next_id : (rh : ResultHistory) (rs : List Result) → (evict rh rs).next_id ≡ rh.next_id
unfolding evict
evict-next_id rh [] = refl
evict-next_id rh (oldest ∷ rest) = refl

abbrev pub entry_result : ℤ → String → String → String → Bool → Result
entry_result id module_name target debug_output success = record {
  id = id;
  module_name = module_name;
  target = target;
  debug_output = debug_output;
  success = success;
}

module _ (m g d : String) (ok : Bool) (rh : ResultHistory) where
  abbrev longer : List Result
  longer = rh.results ++ entry_result rh.next_id m g d ok ∷ []

  abbrev appended : ResultHistory
  appended = record rh { next_id = increment rh.next_id; results = longer }

  add_full : ltb rh.max_results (length longer) ≡ true → add m g d ok rh ≡ evict appended longer
  unfolding add
  add_full e = rw e

  add_room : ltb rh.max_results (length longer) ≡ false → add m g d ok rh ≡ appended
  unfolding add
  add_room e = rw e

-- `Add` keeps the representation, with the new result at the end.
pub add-Represents :
    (n : ℕ) (m g d : String) (ok : Bool) (rh : ResultHistory) (t : List Result)
    → Represents n rh t
    → Represents n (add m g d ok rh) (t ++ entry_result rh.next_id m g d ok ∷ [])
add-Represents n m g d ok rh t h =
    let r = entry_result rh.next_id m g d ok in
    elim (le_or_lt n (length t)) [
      | inl full ↦ rw (add_full m g d ok rh (rw (h.limit, h.recent) (overfull n t r full))) (
          evict-Represents n (appended m g d ok rh) (longer m g d ok rh) (expired n t) _ h.limit
            h.failures (ground (arith, length-append rh.results (r ∷ [])))
            (rw h.recent (newest-concat n t r full)) (rw h.recent (expired-concat n t r full)))
      | inr room ↦
          rw (add_room m g d ok rh (rw (h.limit, h.recent) (not_overfull n t r room))) (record {
            limit = h.limit;
            recent = rw h.recent (sym (newest-concat_short n t r room));
            failures = rw (expired-concat_short n t r room) h.failures;
          })
    ]

-- The arguments of one call of `Add`.
pub record Entry : Type 0 where
  pub module_name : String
  pub target : String
  pub debug_output : String
  pub success : Bool

unfoldable pub add_all : List Entry → ResultHistory → ResultHistory
add_all [] rh = rh
add_all (e ∷ es) rh = add_all es (add e.module_name e.target e.debug_output e.success rh)

-- The results that the calls make: the ids count up from `id`.
unfoldable pub trace : ℤ → List Entry → List Result
trace id [] = []
trace id (e ∷ es) =
    entry_result id e.module_name e.target e.debug_output e.success ∷ trace (increment id) es

next_id-add :
    (m g d : String) (ok : Bool) (rh : ResultHistory)
    → (add m g d ok rh).next_id ≡ increment rh.next_id
unfolding add
next_id-add m g d ok rh = ground (arith, evict-next_id (appended m g d ok rh) (longer m g d ok rh))

add_all-Represents_from :
    (n : ℕ) (es : List Entry) (rh : ResultHistory) (t : List Result)
    → Represents n rh t
    → Represents n (add_all es rh) (t ++ trace rh.next_id es)
unfolding add_all trace
add_all-Represents_from n [] rh t h = rw append-nil h
add_all-Represents_from n (e ∷ es) rh t h =
    let next = add-Represents n e.module_name e.target e.debug_output e.success rh t h in
    let all = add_all-Represents_from n es _ _ next in simp (append_assoc, next_id-add) at all

-- After any sequence of calls of `Add`, an empty history with the limit `n` holds the last `n`
-- results, and of the older ones the last `n` that failed.
pub add_all-Represents :
    (n : ℕ) (es : List Entry) → Represents n (add_all es (new_history n)) (trace (pos 0) es)
add_all-Represents n es = add_all-Represents_from n es (new_history n) [] (record {
  limit = refl;
  recent = sym (newest_short n [] (omega arith));
  failures =
      rw (expired_short {A = Result} n [] (omega arith)) (sym (newest_short n [] (omega arith)));
})
