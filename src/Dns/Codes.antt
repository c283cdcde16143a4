-- ===== src/Dns/Codes.antt =====
-- The class, the type and the rcode of a DNS probe, as the configuration names them.
use big_blackbox_exporter.Base.{
  ℕ, ◌≡◌, ◌≢◌, ◌⊎◌, refl, Bool, true, false, ◌&&◌, List, [], ◌∷◌, String, Option, some, none,
  str_eq, eq_iff, ◌==◌, all, any, arith, Bool-cases, Option-cases, inl, inr,
}
use big_blackbox_exporter.Dns.{or_zero, lookup_rcodes, is_listed, valid_rcode}
use big_blackbox_exporter.Dns.Probe.{code_or}

-- The code is the default where no name is given, and the name's in the table otherwise.
abbrev pub IsCode : (default : ℕ) → (table : String → Option ℕ) → (name : String) → ℕ → Type 0
IsCode default table name code =
    ((name ≡ "") × (code ≡ default)) ⊎ ((name ≢ "") × (table name ≡ some code))

pub code_or-IsCode :
    (default : ℕ) (table : String → Option ℕ) (name : String) (code : ℕ)
    → code_or default table name ≡ some code
    → IsCode default table name code
code_or-IsCode default table name code h = elim (Bool-cases (str_eq name "")) [
  | inl empty ↦ inl ((eq_iff name "").0 empty, ground arith)
  | inr given ↦ inr (ground (arith, eq_iff name ""), ground arith)
]

module _ (table : String → Option ℕ) (rcode : ℕ) where
  abbrev pub known : {A : Type 0} → Option A → Bool
  known none = false
  known (some rc) = true

  abbrev pub is_code : Option ℕ → Bool
  is_code none = false
  is_code (some rc) = rcode == rc

  -- All names of the list are known, and one of them names the rcode; where there is no list, the
  -- rcode is NOERROR.
  abbrev pub rcode_rule : Option (List String) → Bool
  rcode_rule none = rcode == or_zero table (table "NOERROR")
  rcode_rule (some names) = all (λ n. known (table n)) names && any (λ n. is_code (table n)) names

  -- The code of a name in front of those of the others.
  abbrev consed : Option ℕ → Option (List ℕ) → Option (List ℕ)
  consed none o = none
  consed (some rc) none = none
  consed (some rc) (some rcs) = some (rc ∷ rcs)

  lookup_rcodes-cons :
      (n : String) (names : List String)
      → lookup_rcodes table (n ∷ names) ≡ consed (table n) (lookup_rcodes table names)
  unfolding lookup_rcodes
  lookup_rcodes-cons n names = elim (Option-cases (table n)) [
    | inl unknown ↦ ground arith
    | inr (rc, found) ↦ elim (Option-cases (lookup_rcodes table names)) [
      | inl others ↦ ground arith
      | inr (rcs, others) ↦ ground arith
    ]
  ]

  -- The verdict on the codes that the names give.
  abbrev listed : Option (List ℕ) → Bool
  listed none = false
  listed (some rcs) = is_listed table rcode rcs

  valid_rcode-eq-listed :
      (names : List String)
      → valid_rcode table rcode (some names) ≡ listed (lookup_rcodes table names)
  unfolding valid_rcode
  valid_rcode-eq-listed names = elim (Option-cases (lookup_rcodes table names)) [
    | inl others ↦ ground arith
    | inr (rcs, others) ↦ ground arith
  ]

  known-lookup_rcodes :
      (names : List String) → known (lookup_rcodes table names) ≡ all (λ n. known (table n)) names
  unfolding lookup_rcodes
  known-lookup_rcodes [] = refl
  known-lookup_rcodes (n ∷ names) = elim (Option-cases (table n)) [
    | inl unknown ↦ rw (lookup_rcodes-cons n names, unknown) refl
    | inr (rc, found) ↦ elim (Option-cases (lookup_rcodes table names)) [
      | inl others ↦
          let rest : false ≡ all (λ n. known (table n)) names =
            rw others at (known-lookup_rcodes names) in
          rw (lookup_rcodes-cons n names, found, others) rest
      | inr (rcs, others) ↦
          let rest : true ≡ all (λ n. known (table n)) names =
            rw others at (known-lookup_rcodes names) in
          rw (lookup_rcodes-cons n names, found, others) rest
    ]
  ]

  listed-eq-any :
      (names : List String) (rcs : List ℕ)
      → lookup_rcodes table names ≡ some rcs
      → is_listed table rcode rcs ≡ any (λ n. is_code (table n)) names
  unfolding lookup_rcodes is_listed
  listed-eq-any [] rcs h = let same : [] ≡ rcs = cc in rw (← same) refl
  listed-eq-any (n ∷ names) rcs h = elim (Option-cases (table n)) [
    | inl unknown ↦
        let bad : none ≡ some rcs = rw (lookup_rcodes-cons n names, unknown) at h in absurd cc
    | inr (rc, found) ↦ elim (Option-cases (lookup_rcodes table names)) [
      | inl others ↦
          let bad : none ≡ some rcs = rw (lookup_rcodes-cons n names, found, others) at h in
          absurd cc
      | inr (rest, others) ↦
          let both : some (rc ∷ rest) ≡ some rcs =
            rw (lookup_rcodes-cons n names, found, others) at h in
          let same : rc ∷ rest ≡ rcs = cc in
          rw (← same, found) (ground (arith, listed-eq-any names rest others))
    ]
  ]

  pub valid_rcode-eq-rule :
      (names : Option (List String)) → valid_rcode table rcode names ≡ rcode_rule names
  unfolding valid_rcode lookup_rcodes is_listed
  valid_rcode-eq-rule none = ground arith
  valid_rcode-eq-rule (some names) = elim (Option-cases (lookup_rcodes table names)) [
    | inl others ↦
        let some_unknown : false ≡ all (λ n. known (table n)) names =
          rw others at (known-lookup_rcodes names) in
        rw (valid_rcode-eq-listed names, others, ← some_unknown) refl
    | inr (rcs, others) ↦
        let all_known : true ≡ all (λ n. known (table n)) names =
          rw others at (known-lookup_rcodes names) in
        rw (valid_rcode-eq-listed names, others, ← all_known) (listed-eq-any names rcs others)
  ]
