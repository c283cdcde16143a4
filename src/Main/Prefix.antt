-- ===== src/Main/Prefix.antt =====
-- What the prefix of the routes looks like.
use Prim.Native.String.{◌++◌ as ◌<>◌}
use Prim.Native.Char.{Char, code}
use mathlib.Core.Path.{subst}
use text.Mathlib.TextLemmas.{nil-append, cons-append, append_assoc, cons≢nil, tail-eq_of_cons-eq}
use big_blackbox_exporter.Base.{
  ◌≡◌, ◌≢◌, ◌⊎◌, refl, ap, sym, ◌∙◌, Bool, true, false, not, String, str_eq, eq_iff, ◌==◌,
  if◌then◌else◌, Bool-cases, inl, inr,
}
use big_blackbox_exporter.Base.Text.{trim_left, trim_right, keep_char}
use big_blackbox_exporter.Main.Url.{trim_slash, trim_right_slash, route_prefix}

abbrev is_slash : Char → Bool
is_slash c = code c == b'/'

abbrev starts_with_slash : String → Bool
starts_with_slash String.[] = false
starts_with_slash (String.◌∷◌ c s) = is_slash c

abbrev ends_with_slash : String → Bool
ends_with_slash String.[] = false
ends_with_slash (String.◌∷◌ c String.[]) = is_slash c
ends_with_slash (String.◌∷◌ c (String.◌∷◌ d s)) = ends_with_slash (String.◌∷◌ d s)

-- A text without a slash at its ends.
abbrev pub IsTrimmed : String → Type 0
IsTrimmed s = (starts_with_slash s ≡ false) × (ends_with_slash s ≡ false)

trim_left-starts : (s : String) → starts_with_slash (trim_left is_slash s) ≡ false
unfolding trim_left
trim_left-starts String.[] = refl
trim_left-starts (String.◌∷◌ c s) = elim (Bool-cases (is_slash c)) [
  | inl slash ↦ rw slash (trim_left-starts s)
  | inr other ↦ rw other other
]

keep_char-ends :
    (b : Bool) (c : Char) (s : String)
    → is_slash c ≡ b
    → ends_with_slash s ≡ false
    → ends_with_slash (keep_char b c s) ≡ false
keep_char-ends true c String.[] h e = refl
keep_char-ends true c (String.◌∷◌ d s) h e = e
keep_char-ends false c String.[] h e = h
keep_char-ends false c (String.◌∷◌ d s) h e = e

trim_right-ends : (s : String) → ends_with_slash (trim_right is_slash s) ≡ false
unfolding trim_right
trim_right-ends String.[] = refl
trim_right-ends (String.◌∷◌ c s) = keep_char-ends (is_slash c) c _ refl (trim_right-ends s)

trim_right-starts :
    (s : String) → starts_with_slash s ≡ false → starts_with_slash (trim_right is_slash s) ≡ false
unfolding trim_right
trim_right-starts String.[] h = refl
trim_right-starts (String.◌∷◌ c s) h = rw h h

trim_slash-IsTrimmed : (s : String) → IsTrimmed (trim_slash s)
unfolding trim_slash trim_right_slash
trim_slash-IsTrimmed s = (
  trim_right-starts (trim_left is_slash s) (trim_left-starts s),
  trim_right-ends (trim_left is_slash s),
)

keep_char-cons :
    (b : Bool) (c d : Char) (s : String)
    → keep_char b c (String.◌∷◌ d s) ≡ String.◌∷◌ c (String.◌∷◌ d s)
keep_char-cons true c d s = refl
keep_char-cons false c d s = refl

-- A slash at the end of a text that has none is what is cut.
trim_right-append : (s : String) → ends_with_slash s ≡ false → trim_right is_slash (s <> "/") ≡ s
unfolding trim_right
trim_right-append String.[] h = refl
trim_right-append (String.◌∷◌ c String.[]) h = rw (cons-append c "" "/", h) refl
trim_right-append (String.◌∷◌ c (String.◌∷◌ d s)) h =
    rw (cons-append c (String.◌∷◌ d s) "/", trim_right-append (String.◌∷◌ d s) h)
      (keep_char-cons (is_slash c) c d s)

trim_left-same :
    (s rest : String)
    → s ≢ ""
    → starts_with_slash s ≡ false
    → trim_left is_slash (s <> rest) ≡ s <> rest
unfolding trim_left
trim_left-same String.[] rest some_char h = absurd (some_char refl)
trim_left-same (String.◌∷◌ c s) rest some_char h = rw (cons-append c s rest, h) refl

trim_left-bare : (s : String) → starts_with_slash s ≡ false → trim_left is_slash s ≡ s
unfolding trim_left
trim_left-bare String.[] h = refl
trim_left-bare (String.◌∷◌ c s) h = rw h refl

trim_right-bare : (s : String) → ends_with_slash s ≡ false → trim_right is_slash s ≡ s
unfolding trim_right
trim_right-bare String.[] h = refl
trim_right-bare (String.◌∷◌ c String.[]) h = rw h refl
trim_right-bare (String.◌∷◌ c (String.◌∷◌ d s)) h =
    rw (trim_right-bare (String.◌∷◌ d s) h) (keep_char-cons (is_slash c) c d s)

trim_left-slash : (s : String) → trim_left is_slash ("/" <> s) ≡ trim_left is_slash s
unfolding trim_left
trim_left-slash s =
    ap (trim_left is_slash) (cons-append _ "" s) ∙ ap (trim_left is_slash) (nil-append s)

trim_slash-between : (s : String) → s ≢ "" → IsTrimmed s → trim_slash ("/" <> s <> "/") ≡ s
unfolding trim_slash trim_right_slash
trim_slash-between s some_char (start, end) =
    ap (trim_right is_slash) (trim_left-slash (s <> "/") ∙ trim_left-same s "/" some_char start)
    ∙ trim_right-append s end

-- The root, or a text without a slash at its ends between two slashes.
abbrev pub IsPrefix : String → Type 0
IsPrefix prefix =
    (prefix ≡ "/") ⊎ ((s : String) × (s ≢ "") × IsTrimmed s × (prefix ≡ "/" <> s <> "/"))

slash-cons : (s : String) → "/" <> s ≡ String.◌∷◌ "/" s
slash-cons s = cons-append "/" "" s ∙ ap (String.◌∷◌ "/") (nil-append s)

slash-not_empty : (s : String) → str_eq ("/" <> s) "" ≡ false
slash-not_empty s = elim (Bool-cases (str_eq ("/" <> s) "")) [
  | inl empty ↦ absurd (cons≢nil (sym (slash-cons s) ∙ (eq_iff ("/" <> s) "").0 empty))
  | inr other ↦ other
]

slash-not_root : (s : String) → s ≢ "" → str_eq ("/" <> s) "/" ≡ false
slash-not_root s some_char = elim (Bool-cases (str_eq ("/" <> s) "/")) [
  | inl root ↦
      absurd (some_char (tail-eq_of_cons-eq (sym (slash-cons s) ∙ (eq_iff ("/" <> s) "/").0 root)))
  | inr other ↦ other
]

-- The slashes that `run` puts around what is trimmed.
abbrev between : String → String
between s = if not (str_eq ("/" <> s) "/") then ("/" <> s) <> "/" else "/" <> s

between-IsPrefix : (s : String) → IsTrimmed s → IsPrefix (between s)
between-IsPrefix s trimmed = elim (Bool-cases (str_eq ("/" <> s) "/")) [
  | inl root ↦ rw root (inl ((eq_iff ("/" <> s) "/").0 root))
  | inr other ↦ rw other (
      inr (
        s,
        (λ empty.
            let same : str_eq ("/" <> "") "/" ≡ false =
              subst (λ x. str_eq ("/" <> x) "/" ≡ false) empty other in
            cc),
        trimmed,
        append_assoc "/" s "/",
      ))
]

-- A text without a slash at its ends loses nothing but the slashes that stand around it.
trim_slash-after : (s : String) → s ≢ "" → IsTrimmed s → trim_slash ("/" <> s) ≡ s
unfolding trim_slash trim_right_slash
trim_slash-after s some_char (start, end) =
    ap (trim_right is_slash) (trim_left-slash s ∙ trim_left-bare s start) ∙ trim_right-bare s end

-- The prefix for what has to be trimmed to a text.
between-trimmed :
    (s given : String)
    → s ≢ ""
    → trim_slash given ≡ s
    → between (trim_slash given) ≡ "/" <> s <> "/"
between-trimmed s given some_char same =
    rw same (rw (slash-not_root s some_char) (append_assoc "/" s "/"))

-- The prefix of the routes is the root, or a text without a slash at its ends between two slashes,
-- whatever the flag and the path of the external URL. A flag of this form is kept as it is, and a
-- text after one slash, which is the form of the URL's path, gets the other one. Without a flag the
-- URL's path takes its place, and where that is empty too the prefix is the root.
pub route_prefix-IsPrefix :
    (flag url_path s : String)
    → s ≢ ""
    → IsTrimmed s
    → IsPrefix (route_prefix flag url_path)
      × (route_prefix "/" url_path ≡ "/")
      × (route_prefix ("/" <> s <> "/") url_path ≡ "/" <> s <> "/")
      × (route_prefix ("/" <> s) url_path ≡ "/" <> s <> "/")
      × (route_prefix "" ("/" <> s) ≡ "/" <> s <> "/")
      × (route_prefix "" url_path ≡ route_prefix url_path "")
      × (route_prefix "" "" ≡ "/")
unfolding route_prefix
route_prefix-IsPrefix flag url_path s some_char trimmed = (
  between-IsPrefix _ (trim_slash-IsTrimmed (if str_eq flag "" then url_path else flag)),
  refl,
  rw (slash-not_empty (s <> "/"))
      (between-trimmed s ("/" <> s <> "/") some_char (trim_slash-between s some_char trimmed)),
  rw (slash-not_empty s)
      (between-trimmed s ("/" <> s) some_char (trim_slash-after s some_char trimmed)),
  between-trimmed s ("/" <> s) some_char (trim_slash-after s some_char trimmed),
  ap (λ p. between (trim_slash p)) (default-same (Bool-cases (str_eq url_path ""))),
  refl,
)
  where
    default-same :
        (str_eq url_path "" ≡ true) ⊎ (str_eq url_path "" ≡ false)
        → url_path ≡ (if str_eq url_path "" then "" else url_path)
    default-same (inl empty) = rw empty ((eq_iff url_path "").0 empty)
    default-same (inr given) = rw given refl
