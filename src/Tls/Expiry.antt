-- ===== src/Tls/Expiry.antt =====
-- The two expiry times, against what they mean.
use mathlib.Core.List.{Memᴰ}
use big_blackbox_exporter.Base.{
  ◌≡◌, refl, ◌∙◌, false, not, ◌&&◌, ◌||◌, List, [], ◌∷◌, ◌⊎◌, inl, inr, arith, All, map,
  if◌then◌else◌,
}
use big_blackbox_exporter.Base.Int.{eqb_ℤ_iff, not_lt_trans, not_lt_of_lt, lt_irrefl}
use big_blackbox_exporter.Tls.{
  Time, zero_time, is_zero, before, Certificate, ConnectionState, earliest_from,
  get_earliest_cert_expiry, last_from, get_last_chain_expiry,
}

abbrev pub expiries : List Certificate → List Time
expiries certs = map (λ (c : Certificate). c.not_after) certs

-- No expiry of the list is before `e`, but those that are not set.
abbrev pub IsLowerBound : Time → List Certificate → Type 0
IsLowerBound e certs = All (λ c. (c.not_after ≡ zero_time) ⊎ (before c.not_after e ≡ false)) certs

-- The loop's test and its assignment.
abbrev next_earliest : Time → Time → Time
next_earliest earliest t =
    if (is_zero earliest || before t earliest) && not (is_zero t) then t else earliest

module _ (e t r : Time) where
  next-lower :
      (next_earliest e t ≡ zero_time) ⊎ (before (next_earliest e t) r ≡ false)
      → ((e ≡ zero_time) ⊎ (before e r ≡ false)) × ((t ≡ zero_time) ⊎ (before t r ≡ false))
  next-lower h = ground (
    arith,
    eqb_ℤ_iff e zero_time,
    eqb_ℤ_iff t zero_time,
    not_lt_trans r t e,
    not_lt_trans r e t,
    not_lt_of_lt t e,
  )

  next-unset : next_earliest e t ≡ zero_time → (e ≡ zero_time) × (t ≡ zero_time)
  next-unset h = ground (arith, eqb_ℤ_iff e zero_time, eqb_ℤ_iff t zero_time)

  next-origin : (next_earliest e t ≡ e) ⊎ (next_earliest e t ≡ t)
  next-origin = ground arith

earliest_from-lower :
    (e : Time) (certs : List Certificate)
    → ((e ≡ zero_time) ⊎ (before e (earliest_from e certs) ≡ false))
      × IsLowerBound (earliest_from e certs) certs
unfolding earliest_from
earliest_from-lower e [] = (inr (lt_irrefl e), tt)
earliest_from-lower e (cert ∷ certs) =
    let (here, rest) = earliest_from-lower (next_earliest e cert.not_after) certs in
    let (old, new) = next-lower e cert.not_after _ here in (old, (new, rest))

earliest_from-unset :
    (e : Time) (certs : List Certificate)
    → earliest_from e certs ≡ zero_time
    → (e ≡ zero_time) × All (λ c. c.not_after ≡ zero_time) certs
unfolding earliest_from
earliest_from-unset e [] h = (h, tt)
earliest_from-unset e (cert ∷ certs) h =
    let (here, rest) = earliest_from-unset (next_earliest e cert.not_after) certs h in
    let (old, new) = next-unset e cert.not_after cert.not_after here in (old, (new, rest))

earliest_from-origin :
    (e : Time) (certs : List Certificate)
    → (earliest_from e certs ≡ e) ⊎ Memᴰ (earliest_from e certs) (expiries certs)
unfolding earliest_from
earliest_from-origin e [] = inl refl
earliest_from-origin e (cert ∷ certs) =
    elim (earliest_from-origin (next_earliest e cert.not_after) certs) [
      | inl same ↦ elim (next-origin e cert.not_after cert.not_after) [
        | inl kept ↦ inl (same ∙ kept)
        | inr taken ↦ inr (Memᴰ.head (same ∙ taken))
      ]
      | inr later ↦ inr (Memᴰ.tail later)
    ]

-- `e` is the earliest expiry that is set, or not set where none is.
pub record IsEarliest (e : Time) (certs : List Certificate) : Type 0 where
  pub lower : IsLowerBound e certs
  pub origin : (e ≡ zero_time) ⊎ Memᴰ e (expiries certs)
  pub unset : e ≡ zero_time → All (λ c. c.not_after ≡ zero_time) certs

earliest_from-IsEarliest :
    (certs : List Certificate) → IsEarliest (earliest_from zero_time certs) certs
earliest_from-IsEarliest certs = record {
  lower = (earliest_from-lower zero_time certs).1;
  origin = earliest_from-origin zero_time certs;
  unset = λ h. (earliest_from-unset zero_time certs h).1;
}

-- `getEarliestCertExpiry` returns an expiry of one of the peer's certificates that none of them
-- precedes, unset ones aside; it returns the zero time only where no certificate has one.
pub get_earliest_cert_expiry-IsEarliest :
    (state : ConnectionState) → IsEarliest (get_earliest_cert_expiry state) state.peer_certificates
unfolding get_earliest_cert_expiry
get_earliest_cert_expiry-IsEarliest state = earliest_from-IsEarliest state.peer_certificates

-- The expiry of a chain: that of the certificate that expires first.
abbrev pub chain_expiry : List Certificate → Time
chain_expiry chain = earliest_from zero_time chain

-- Every chain expires at `last` or before, and one of them at `last`, if any has an expiry.
pub record IsLast (last : Time) (chains : List (List Certificate)) : Type 0 where
  pub upper : All (λ chain. before last (chain_expiry chain) ≡ false) chains
  pub origin : (last ≡ zero_time) ⊎ Memᴰ last (map chain_expiry chains)

abbrev next_last : Time → Time → Time
next_last last t = if is_zero last || before last t then t else last

next_last-upper :
    (last t r : Time)
    → before t zero_time ≡ false
    → before r (next_last last t) ≡ false
    → (before r last ≡ false) × (before r t ≡ false)
next_last-upper last t r late h = ground (
  arith,
  eqb_ℤ_iff last zero_time,
  not_lt_trans last t r,
  not_lt_of_lt last t,
  not_lt_trans last zero_time t,
  not_lt_trans t last r,
)

next_last-origin : (last t : Time) → (next_last last t ≡ last) ⊎ (next_last last t ≡ t)
next_last-origin last t = ground arith

last_from-upper :
    (last : Time) (chains : List (List Certificate))
    → All (λ chain. before (chain_expiry chain) zero_time ≡ false) chains
    → (before (last_from last chains) last ≡ false)
      × All (λ chain. before (last_from last chains) (chain_expiry chain) ≡ false) chains
unfolding last_from
last_from-upper last [] h = (lt_irrefl last, tt)
last_from-upper last (chain ∷ chains) (here, later) =
    let (old, rest) = last_from-upper (next_last last (chain_expiry chain)) chains later in
    let (a, b) = next_last-upper last (chain_expiry chain) _ here old in (a, (b, rest))

last_from-origin :
    (last : Time) (chains : List (List Certificate))
    → (last_from last chains ≡ last) ⊎ Memᴰ (last_from last chains) (map chain_expiry chains)
unfolding last_from
last_from-origin last [] = inl refl
last_from-origin last (chain ∷ chains) =
    elim (last_from-origin (next_last last (chain_expiry chain)) chains) [
      | inl same ↦ elim (next_last-origin last (chain_expiry chain)) [
        | inl kept ↦ inl (same ∙ kept)
        | inr taken ↦ inr (Memᴰ.head (same ∙ taken))
      ]
      | inr later ↦ inr (Memᴰ.tail later)
    ]

-- Where no certificate of a verified chain expires before the zero time, `getLastChainExpiry`
-- returns the expiry of the chain that expires last, a chain's expiry being that of its first
-- certificate to expire.
pub get_last_chain_expiry-IsLast :
    (state : ConnectionState)
    → All (λ chain. before (chain_expiry chain) zero_time ≡ false) state.verified_chains
    → IsLast (get_last_chain_expiry state) state.verified_chains
unfolding get_last_chain_expiry
get_last_chain_expiry-IsLast state h = record {
  upper = (last_from-upper zero_time state.verified_chains h).1;
  origin = last_from-origin zero_time state.verified_chains;
}
