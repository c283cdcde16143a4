-- ===== src/Btc/Host.antt =====
-- The host that `ProbeBTCRPC` takes from a target.
use Prim.Native.Char.{Char}
use Prim.Native.String.{[] as []ₛ, ◌∷◌ as ◌∷ₛ◌, ◌++◌ as ◌<>◌}
use text.Mathlib.TextLemmas.{nil-append, cons-append}
use text.Mathlib.TextPositions.{starts_with-append}
use big_blackbox_exporter.Base.{
  ◌≡◌, refl, true, ◌&&◌, String, if◌then◌else◌, arith, Bool-cases, inl, inr,
}
use big_blackbox_exporter.Base.Text.{trim_left, occurs, all_chars}
use big_blackbox_exporter.Btc.{trim_cutset, host_of}

trim_cutset-cons :
    (cutset : String) (c : Char) (s : String)
    → trim_cutset cutset (c ∷ₛ s) ≡ (if occurs c cutset then trim_cutset cutset s else c ∷ₛ s)
unfolding trim_cutset trim_left
trim_cutset-cons cutset c s = refl

-- A prefix of characters that are cut is cut.
trim_cutset-append :
    (cutset prefix s : String)
    → all_chars (λ c. occurs c cutset) prefix ≡ true
    → trim_cutset cutset (prefix <> s) ≡ trim_cutset cutset s
unfolding trim_cutset trim_left
trim_cutset-append cutset []ₛ s h = rw (nil-append s) refl
trim_cutset-append cutset (c ∷ₛ prefix) s h =
    let both : (occurs c cutset && all_chars (λ d. occurs d cutset) prefix) ≡ true = h in
    let cut : occurs c cutset ≡ true = ground arith in
    let rest : all_chars (λ d. occurs d cutset) prefix ≡ true = ground arith in
    rw (cons-append c prefix s)
      (rw (trim_cutset-cons cutset c (prefix <> s), cut) (trim_cutset-append cutset prefix s rest))

-- After http:// the host keeps its first character, and all that follows, exactly where that is
-- none of the characters h, t, p, : and /. Otherwise that character is lost, with all of those
-- that follow it directly.
pub host_of-http :
    (c : Char) (s : String)
    → host_of ("http://" <> (c ∷ₛ s))
      ≡ (if occurs c "http://" then (trim_cutset "http://" s, true) else (c ∷ₛ s, true))
unfolding host_of
host_of-http c s =
    rw
      (
        starts_with-append "http://" (c ∷ₛ s),
        trim_cutset-append "http://" "http://" (c ∷ₛ s) refl,
        trim_cutset-cons "http://" c s,
      )
      (elim (Bool-cases (occurs c "http://")) [ inl lost ↦ rw lost refl | inr kept ↦ rw kept refl ])
