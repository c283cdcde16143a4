-- ===== src/Config/Encoding/Soundness.antt =====
-- What the validation of the compression setting accepts, without the sort.
use big_blackbox_exporter.Base.{
  ◌≡◌, refl, Bool, true, false, ◌||◌, ◌&&◌, List, [], ◌∷◌, String, str_eq, All, any, arith,
  Bool-cases, inl, inr,
}
use big_blackbox_exporter.Config.Encoding.{
  Quality, EncodingQuality, insert_stable, sort_stable, covers, first_quality, encodings,
  is_compression_accept_encoding_valid,
}

-- The order of the qualities that are numbers, not NaN.
pub record IsWeakOrder (ql : Quality) : Type 0 where
  pub asymm : (a b : ql.Num) → ql.lt a b ≡ true → ql.lt b a ≡ false
  pub trans : (a b c : ql.Num) → ql.lt a b ≡ false → ql.lt b c ≡ false → ql.lt a c ≡ false

-- The entry covers the encoding and has a positive quality.
abbrev pub accepts : (ql : Quality) → String → EncodingQuality ql → Bool
accepts ql encoding e = covers ql encoding e && ql.lt ql.zero e.quality

module _ (ql : Quality) (order : IsWeakOrder ql) where
  open ql use {zero, lt}

  abbrev AtMost : EncodingQuality ql → List (EncodingQuality ql) → Type 0
  AtMost e es = All (λ x. lt e.quality x.quality ≡ false) es

  abbrev IsDescending : List (EncodingQuality ql) → Type 0
  IsDescending [] = Unit
  IsDescending (e ∷ es) = AtMost e es × IsDescending es

  AtMost-trans :
      (e x : EncodingQuality ql) (es : List (EncodingQuality ql))
      → lt e.quality x.quality ≡ false
      → AtMost x es
      → AtMost e es
  AtMost-trans e x [] h _ = tt
  AtMost-trans e x (y ∷ es) h (k, ks) =
      (order.trans e.quality x.quality y.quality h k, AtMost-trans e x es h ks)

  AtMost-insert :
      (x e : EncodingQuality ql) (es : List (EncodingQuality ql))
      → lt x.quality e.quality ≡ false
      → AtMost x es
      → AtMost x (insert_stable ql e es)
  unfolding insert_stable
  AtMost-insert x e [] h _ = (h, tt)
  AtMost-insert x e (y ∷ es) h (k, ks) = elim (Bool-cases (lt e.quality y.quality)) [
    | inl later ↦ rw later (k, AtMost-insert x e es h ks)
    | inr here ↦ rw here (h, (k, ks))
  ]

  insert_stable-IsDescending :
      (e : EncodingQuality ql) (es : List (EncodingQuality ql))
      → IsDescending es
      → IsDescending (insert_stable ql e es)
  unfolding insert_stable
  insert_stable-IsDescending e [] _ = (tt, tt)
  insert_stable-IsDescending e (x ∷ es) (k, ks) = elim (Bool-cases (lt e.quality x.quality)) [
    | inl later ↦ rw later (
      AtMost-insert x e es (order.asymm e.quality x.quality later) k,
      insert_stable-IsDescending e es ks,
    )
    | inr here ↦ rw here ((here, AtMost-trans e x es here k), (k, ks))
  ]

  sort_stable-IsDescending : (es : List (EncodingQuality ql)) → IsDescending (sort_stable ql es)
  unfolding sort_stable
  sort_stable-IsDescending [] = tt
  sort_stable-IsDescending (e ∷ es) =
      insert_stable-IsDescending e (sort_stable ql es) (sort_stable-IsDescending es)

  any-insert_stable :
      (p : EncodingQuality ql → Bool) (e : EncodingQuality ql) (es : List (EncodingQuality ql))
      → any p (insert_stable ql e es) ≡ (p e || any p es)
  unfolding insert_stable
  any-insert_stable p e [] = refl
  any-insert_stable p e (x ∷ es) = ground (arith, any-insert_stable p e es)

  any-sort_stable :
      (p : EncodingQuality ql → Bool) (es : List (EncodingQuality ql))
      → any p (sort_stable ql es) ≡ any p es
  unfolding sort_stable
  any-sort_stable p [] = refl
  any-sort_stable p (e ∷ es) =
      ground (arith, any-insert_stable p e (sort_stable ql es), any-sort_stable p es)

  any-accepts_below :
      (encoding : String) (e : EncodingQuality ql) (es : List (EncodingQuality ql))
      → lt zero e.quality ≡ false
      → AtMost e es
      → any (accepts ql encoding) es ≡ false
  any-accepts_below encoding e [] h _ = refl
  any-accepts_below encoding e (x ∷ es) h (k, ks) =
      ground (arith, order.trans zero e.quality x.quality h k, any-accepts_below encoding e es h ks)

  first_quality-eq-any :
      (encoding : String) (es : List (EncodingQuality ql))
      → IsDescending es
      → first_quality ql encoding es ≡ any (accepts ql encoding) es
  unfolding first_quality
  first_quality-eq-any encoding [] _ = refl
  first_quality-eq-any encoding (e ∷ es) (k, ks) =
      ground (arith, first_quality-eq-any encoding es ks, any-accepts_below encoding e es)

  -- For qualities that are numbers, a compression is valid with an Accept-Encoding header exactly
  -- where one of them is empty or some entry of the header, for the compression itself or for "*",
  -- has a quality above 0.
  pub is_compression_accept_encoding_valid-eq-any :
      (encoding accept_encoding : String)
      → is_compression_accept_encoding_valid ql encoding accept_encoding ≡ (
          str_eq encoding ""
          || str_eq accept_encoding ""
          || any (accepts ql encoding) (encodings ql accept_encoding))
  unfolding is_compression_accept_encoding_valid
  is_compression_accept_encoding_valid-eq-any encoding accept_encoding = ground (
    arith,
    first_quality-eq-any encoding (sort_stable ql (encodings ql accept_encoding))
        (sort_stable-IsDescending (encodings ql accept_encoding)),
    any-sort_stable (accepts ql encoding) (encodings ql accept_encoding),
  )
