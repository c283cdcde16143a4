-- ===== src/History/Window.antt =====
-- The end of a list as a window over it, and how a bounded append moves the window.
use big_blackbox_exporter.Base.{
  ℕ, suc, ◌-◌, ◌≤◌, ◌<◌, lt→ltb, ◌≡◌, List, [], ◌∷◌, ◌++◌, arith, ltb, length, take, drop,
  length-append, length-drop, drop-append, take-append, drop-drop, take-suc, true, false,
}

module _ {A : Type 0} where
  -- The last `n` elements.
  abbrev pub newest : ℕ → List A → List A
  newest n xs = drop (length xs - n) xs

  -- What stands before them.
  abbrev pub expired : ℕ → List A → List A
  expired n xs = take (length xs - n) xs

  pub newest_short : (n : ℕ) (xs : List A) → length xs ≤ n → newest n xs ≡ xs
  newest_short n xs h = let e : length xs - n ≡ 0 = omega arith in rw e

  pub expired_short : (n : ℕ) (xs : List A) → length xs ≤ n → expired n xs ≡ []
  expired_short n xs h = let e : length xs - n ≡ 0 = omega arith in rw e

  length-concat : (xs : List A) (x : A) → length (xs ++ x ∷ []) ≡ suc (length xs)
  length-concat xs x = omega (arith, length-append xs (x ∷ []))

  -- Where the window is full, an appended element moves it by one.
  pub newest-concat :
      (n : ℕ) (xs : List A) (x : A)
      → n ≤ length xs
      → newest n (xs ++ x ∷ []) ≡ drop 1 (newest n xs ++ x ∷ [])
  newest-concat n xs x h =
      let e : length (xs ++ x ∷ []) - n ≡ suc (length xs - n) = omega (arith, length-concat xs x) in
      rw (e, ← drop-append (length xs - n) xs (x ∷ []) (omega arith), drop-drop)

  pub expired-concat :
      (n : ℕ) (xs : List A) (x : A)
      → n ≤ length xs
      → expired n (xs ++ x ∷ []) ≡ expired n xs ++ take 1 (newest n xs ++ x ∷ [])
  expired-concat n xs x h =
      let e : length (xs ++ x ∷ []) - n ≡ suc (length xs - n) = omega (arith, length-concat xs x) in
      rw (
        e,
        take-suc,
        take-append (length xs - n) xs (x ∷ []) (omega arith),
        drop-append (length xs - n) xs (x ∷ []) (omega arith),
      )

  pub length-newest : (n : ℕ) (xs : List A) → n ≤ length xs → length (newest n xs) ≡ n
  length-newest n xs h = omega (arith, length-drop (length xs - n) xs)

  -- The test for an overfull list, after an append to a window.
  pub overfull :
      (n : ℕ) (xs : List A) (x : A) → n ≤ length xs → ltb n (length (newest n xs ++ x ∷ [])) ≡ true
  overfull n xs x h =
      lt→ltb _ _ (omega (arith, length-concat (newest n xs) x, length-newest n xs h))

  pub not_overfull :
      (n : ℕ) (xs : List A) (x : A) → length xs < n → ltb n (length (newest n xs ++ x ∷ [])) ≡ false
  not_overfull n xs x h = rw (newest_short n xs (omega arith)) (ground (arith, length-concat xs x))

  pub newest-concat_short :
      (n : ℕ) (xs : List A) (x : A)
      → length xs < n
      → newest n (xs ++ x ∷ []) ≡ newest n xs ++ x ∷ []
  newest-concat_short n xs x h =
      rw (newest_short n xs (omega arith))
        (newest_short n (xs ++ x ∷ []) (omega (arith, length-concat xs x)))

  pub expired-concat_short :
      (n : ℕ) (xs : List A) (x : A) → length xs < n → expired n (xs ++ x ∷ []) ≡ expired n xs
  expired-concat_short n xs x h =
      rw (expired_short n xs (omega arith))
        (expired_short n (xs ++ x ∷ []) (omega (arith, length-concat xs x)))
