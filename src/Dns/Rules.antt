-- ===== src/Dns/Rules.antt =====
-- The validation of resource records against a reference definition without loops or flags.
use big_blackbox_exporter.Base.{
  ℕ, suc, ◌≡◌, ◌∙◌, refl, Bool, true, false, not, ◌&&◌, ◌||◌, List, [], ◌∷◌, String, Option, some,
  none, ◌==◌, length, all, any, arith,
}
use big_blackbox_exporter.Config.{DnsRrValidator}
use big_blackbox_exporter.Dns.{
  Rr, no_match, keep_all_match, every_match, keep_any_match, conclude, check_rrs, valid_rrs,
}

abbrev pub hits : Option Bool → Bool
hits none = false
hits (some m) = m

abbrev pub misses : Option Bool → Bool
misses none = false
misses (some m) = not m

-- The expression could be compiled.
abbrev pub answers : Option Bool → Bool
answers none = false
answers (some m) = true

suc-ne-zero : (n : ℕ) → (suc n == 0) ≡ false
suc-ne-zero n = ground arith

module _ (matches : String → String → Option Bool) where
  -- Every expression of the list gives the verdict on every record.
  abbrev pub for_all : (Option Bool → Bool) → List String → List Rr → Bool
  for_all verdict res rrs = all (λ rr. all (λ re. verdict (matches re rr.text)) res) rrs

  abbrev pub some_hit : List String → List Rr → Bool
  some_hit res rrs = any (λ rr. any (λ re. hits (matches re rr.text)) res) rrs

  no_match-eq-all :
      (text : String) (res : List String)
      → no_match matches text res ≡ all (λ re. misses (matches re text)) res
  unfolding no_match
  no_match-eq-all text [] = refl
  no_match-eq-all text (re ∷ res) = ground (arith, no_match-eq-all text res)

  every_match-eq-all :
      (text : String) (res : List String)
      → every_match matches text res ≡ all (λ re. hits (matches re text)) res
  unfolding every_match
  every_match-eq-all text [] = refl
  every_match-eq-all text (re ∷ res) = ground (arith, every_match-eq-all text res)

  abbrev when_answered : Bool → Bool → Option Bool
  when_answered true b = some b
  when_answered false b = none

  keep_all_match_lem :
      (text : String) (flag : Bool) (res : List String)
      → keep_all_match matches text flag res
        ≡ when_answered
            (all (λ re. answers (matches re text)) res)
            (flag && all (λ re. hits (matches re text)) res)
  unfolding keep_all_match
  keep_all_match_lem text flag [] = ground arith
  keep_all_match_lem text flag (re ∷ res) =
      ground (arith, keep_all_match_lem text flag res, keep_all_match_lem text false res)

  keep_any_match_lem :
      (text : String) (flag : Bool) (res : List String)
      → keep_any_match matches text flag res
        ≡ when_answered
            (all (λ re. answers (matches re text)) res)
            (flag || any (λ re. hits (matches re text)) res)
  unfolding keep_any_match
  keep_any_match_lem text flag [] = ground arith
  keep_any_match_lem text flag (re ∷ res) =
      ground (arith, keep_any_match_lem text flag res, keep_any_match_lem text true res)

  -- The four lists of a validator, without the loops. The flags are those of the source at the
  -- start of a loop over the records.
  abbrev reference : DnsRrValidator → (any_match all_match : Bool) → List Rr → Bool
  reference v any_match all_match rrs =
      for_all misses v.fail_if_matches_regexp rrs
      && for_all hits v.fail_if_not_matches_regexp rrs
      && for_all answers v.fail_if_all_match_regexp rrs
      && for_all answers v.fail_if_none_matches_regexp rrs
      && conclude matches v (any_match || some_hit v.fail_if_none_matches_regexp rrs)
          (all_match && for_all hits v.fail_if_all_match_regexp rrs)

  check_rrs-eq-reference :
      (v : DnsRrValidator) (any_match all_match : Bool) (rrs : List Rr)
      → check_rrs matches v any_match all_match rrs ≡ reference v any_match all_match rrs
  unfolding check_rrs
  check_rrs-eq-reference v a b [] = ground arith
  check_rrs-eq-reference v a b (rr ∷ rrs) = ground (
    arith,
    no_match-eq-all rr.text v.fail_if_matches_regexp,
    keep_all_match_lem rr.text b v.fail_if_all_match_regexp,
    every_match-eq-all rr.text v.fail_if_not_matches_regexp,
    keep_any_match_lem rr.text a v.fail_if_none_matches_regexp,
    check_rrs-eq-reference v
        (a || any (λ re. hits (matches re rr.text)) v.fail_if_none_matches_regexp)
        (b && all (λ re. hits (matches re rr.text)) v.fail_if_all_match_regexp) rrs,
  )

  for_all-nil : (verdict : Option Bool → Bool) (rrs : List Rr) → for_all verdict [] rrs ≡ true
  for_all-nil verdict [] = refl
  for_all-nil verdict (rr ∷ rrs) = for_all-nil verdict rrs

  all-answers :
      (text : String) (res : List String)
      → all (λ re. hits (matches re text)) res ≡ true
      → all (λ re. answers (matches re text)) res ≡ true
  all-answers text [] h = refl
  all-answers text (re ∷ res) h = ground (arith, all-answers text res)

  for_all-answers :
      (res : List String) (rrs : List Rr)
      → for_all hits res rrs ≡ true
      → for_all answers res rrs ≡ true
  for_all-answers res [] h = refl
  for_all-answers res (rr ∷ rrs) h =
      ground (arith, all-answers rr.text res, for_all-answers res rrs)

  abbrev pub is_empty {ℓ} : {A : Type ℓ} → List A → Bool
  is_empty [] = true
  is_empty (_ ∷ _) = false

  -- What the validator asks for.
  abbrev pub rules : DnsRrValidator → List Rr → Bool
  rules v rrs =
      not (
        is_empty rrs
        && not (is_empty v.fail_if_not_matches_regexp && is_empty v.fail_if_none_matches_regexp))
      && for_all misses v.fail_if_matches_regexp rrs
      && for_all hits v.fail_if_not_matches_regexp rrs
      && for_all hits v.fail_if_all_match_regexp rrs
      && for_all answers v.fail_if_none_matches_regexp rrs
      && (is_empty v.fail_if_none_matches_regexp || some_hit v.fail_if_none_matches_regexp rrs)

  abbrev lists : (m a n o : List String) → DnsRrValidator
  lists m a n o = record {
    fail_if_matches_regexp = m;
    fail_if_all_match_regexp = a;
    fail_if_not_matches_regexp = n;
    fail_if_none_matches_regexp = o;
  }

  conclude-rules :
      (m a n o : List String) (rrs : List Rr)
      → reference (lists m a n o) false true rrs ≡ (
          for_all misses m rrs
          && for_all hits n rrs
          && for_all hits a rrs
          && for_all answers o rrs
          && (is_empty o || some_hit o rrs))
  conclude-rules m [] n [] rrs = ground (arith, for_all-nil hits rrs, for_all-nil answers rrs)
  conclude-rules m [] n (x ∷ o) rrs = ground (arith, for_all-nil hits rrs, for_all-nil answers rrs)
  conclude-rules m (y ∷ a) n [] rrs = ground (arith, for_all-answers (y ∷ a) rrs)
  conclude-rules m (y ∷ a) n (x ∷ o) rrs = ground (arith, for_all-answers (y ∷ a) rrs)

  valid_by_lists :
      (m a n o : List String) (rrs : List Rr)
      → valid_rrs matches rrs (lists m a n o) ≡ rules (lists m a n o) rrs
  unfolding valid_rrs
  valid_by_lists m a [] [] [] =
      ground
        (arith, check_rrs-eq-reference (lists m a [] []) false true [], conclude-rules m a [] [] [])
  valid_by_lists m a [] (x ∷ o) [] = ground arith
  valid_by_lists m a (z ∷ n) o [] = ground arith
  valid_by_lists m a n o (rr ∷ rrs) = rw (suc-ne-zero (length rrs)) (
      check_rrs-eq-reference (lists m a n o) false true (rr ∷ rrs)
      ∙ conclude-rules m a n o (rr ∷ rrs))

  -- A section of the response is valid exactly where all of this holds. It is not empty if
  -- `fail_if_not_matches_regexp` or `fail_if_none_matches_regexp` is given; no record matches an
  -- expression of `fail_if_matches_regexp`; every record matches every expression of
  -- `fail_if_not_matches_regexp` and also of `fail_if_all_match_regexp`; and some record matches
  -- one of `fail_if_none_matches_regexp`, unless that is empty. An expression that does not compile
  -- makes the section invalid, if there is a record to match it with.
  pub valid_rrs-eq-rules :
      (v : DnsRrValidator) (rrs : List Rr) → valid_rrs matches rrs v ≡ rules v rrs
  valid_rrs-eq-rules v rrs =
      valid_by_lists v.fail_if_matches_regexp v.fail_if_all_match_regexp
        v.fail_if_not_matches_regexp v.fail_if_none_matches_regexp rrs
