-- ===== src/History/Tests.antt =====
-- Runs of the history, and its theorems at concrete histories.
use mathlib.Core.List.{Memᴰ}
use big_blackbox_exporter.Base.{
  ◌≡◌, refl, Bool, true, false, List, [], ◌∷◌, String, arith, some, none, map,
}
use big_blackbox_exporter.Base.Int.{pos}
use big_blackbox_exporter.History.{Result, ResultHistory, add, list, new_history, get_by_id}
use big_blackbox_exporter.History.Refinement.{
  Entry, Represents, add_all, trace, add_all-Represents, entry_result,
}
use big_blackbox_exporter.History.Lookup.{get_by_id-list}

abbrev entry : String → Bool → Entry
entry target success = record {
  module_name = "http_2xx";
  target = target;
  debug_output = "log";
  success = success;
}

abbrev entries : List Entry
entries =
    entry "a" false
    ∷ entry "b" true
    ∷ entry "c" false
    ∷ entry "d" false
    ∷ entry "e" true
    ∷ entry "a" true
    ∷ []

history : ResultHistory
unfolding add_all add
history = add_all entries (new_history 2)

-- Of the four results that left the window of two, the last two failures are kept.
history_ids : map (λ (r : Result). r.id) (list history) ≡ pos 2 ∷ pos 3 ∷ pos 4 ∷ pos 5 ∷ []
unfolding history list
history_ids = refl

abbrev third : Result
third = entry_result (pos 2) "http_2xx" "c" "log" false

third_listed : Memᴰ third (list history)
unfolding history list
third_listed = Memᴰ.head refl

history_gone : get_by_id (pos 0) history ≡ none
unfolding history get_by_id
history_gone = refl

add_all-Represents_example : Represents 2 (add_all entries (new_history 2)) (trace (pos 0) entries)
add_all-Represents_example = add_all-Represents 2 entries

get_by_id-list_example : get_by_id (pos 2) (add_all entries (new_history 2)) ≡ some third
unfolding history
get_by_id-list_example = get_by_id-list 2 entries third (omega arith) third_listed
