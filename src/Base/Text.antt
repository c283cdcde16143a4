-- ===== src/Base/Text.antt =====
-- The functions of Go's package strings that the exporter calls, over the characters of a text.
use Prim.Native.Nat.{ℕ}
use Prim.Native.Char.{Char, code}
use Prim.Native.String.{String, [], ◌∷◌, ◌++◌ as ◌<>◌}
use mathlib.Core.Path.{◌≡◌, refl}
use mathlib.Core.Bool.{Bool, true, false, not, ◌||◌, ◌&&◌}
use mathlib.Core.Option.{Option, none, some}
use mathlib.Core.List.{List, ◌∷◌ as ◌∷ₗ◌, [] as nil}
use text.Mathlib.Text.{starts_with}
use big_blackbox_exporter.Base.Tests.{◌==◌, leb, if◌then◌else◌}

-- `unicode.IsSpace`
abbrev pub is_space : Char → Bool
is_space c =
    (leb 9 (code c) && leb (code c) 13)
    || code c == 0x20
    || code c == 0x85
    || code c == 0xa0
    || code c == 0x1680
    || (leb 0x2000 (code c) && leb (code c) 0x200a)
    || code c == 0x2028
    || code c == 0x2029
    || code c == 0x202f
    || code c == 0x205f
    || code c == 0x3000

-- `strings.TrimLeft` by a set of characters.
unfoldable pub trim_left : (Char → Bool) → String → String
trim_left cut [] = []
trim_left cut (c ∷ s) = if cut c then trim_left cut s else c ∷ s

-- A character that is kept, or one before such a character.
abbrev pub keep_char : Bool → Char → String → String
keep_char true c [] = []
keep_char true c (d ∷ s) = c ∷ d ∷ s
keep_char false c s = c ∷ s

-- `strings.TrimRight` by a set of characters.
unfoldable pub trim_right : (Char → Bool) → String → String
trim_right cut [] = []
trim_right cut (c ∷ s) = keep_char (cut c) c (trim_right cut s)

unfoldable pub trim_space : String → String
unfolding trim_left trim_right
trim_space s = trim_right is_space (trim_left is_space s)

abbrev pub prepend : Char → List String → List String
prepend c nil = (c ∷ []) ∷ₗ nil
prepend c (part ∷ₗ parts) = (c ∷ part) ∷ₗ parts

-- `strings.Split` at a separator of one character.
unfoldable pub split : ℕ → String → List String
split sep [] = [] ∷ₗ nil
split sep (c ∷ s) =
    let parts = split sep s in if code c == sep then [] ∷ₗ parts else prepend c parts

abbrev pub cut_before : ℕ → Char → String → Option (String × String) → Option (String × String)
cut_before sep c s (some (before, after)) = some (c ∷ before, after)
cut_before sep c s none = if code c == sep then some ([], s) else none

-- The text before and after the last occurrence of a character: `strings.LastIndexByte` and the
-- two slices that are taken there.
unfoldable pub cut_last : ℕ → String → Option (String × String)
cut_last sep [] = none
cut_last sep (c ∷ s) = cut_before sep c s (cut_last sep s)

unfoldable pub drop_prefix : String → String → String
drop_prefix [] s = s
drop_prefix (p ∷ prefix) [] = []
drop_prefix (p ∷ prefix) (c ∷ s) = drop_prefix prefix s

-- `strings.TrimPrefix`
unfoldable pub trim_prefix : String → String → String
unfolding drop_prefix
trim_prefix prefix s = if starts_with s prefix then drop_prefix prefix s else s

-- `strings.Contains`
unfoldable pub contains_text : String → String → Bool
contains_text [] sub = starts_with [] sub
contains_text (c ∷ s) sub = starts_with (c ∷ s) sub || contains_text s sub

-- `strings.ReplaceAll` of a text of two characters by nothing.
unfoldable pub remove_pair : (first second : ℕ) → String → String
remove_pair a b [] = []
remove_pair a b (c ∷ []) = c ∷ []
remove_pair a b (c ∷ d ∷ s) =
    let after = remove_pair a b s in
    let kept = c ∷ remove_pair a b (d ∷ s) in if code c == a && code d == b then after else kept

-- `http://` in front of a target that names no scheme, as five of the probes have it.
abbrev pub with_scheme : String → String
with_scheme target =
    if not (starts_with target "http://") && not (starts_with target "https://")
    then "http://" <> target
    else target

-- `strings.Join`
unfoldable pub join : String → List String → String
join sep nil = []
join sep (part ∷ₗ nil) = part
join sep (part ∷ₗ next ∷ₗ parts) = part <> sep <> join sep (next ∷ₗ parts)

-- The character at the place in `to` that `c` has in `from`.
abbrev pub translate : (from to : String) → Char → Char
translate [] to c = c
translate (f ∷ from) [] c = c
translate (f ∷ from) (t ∷ to) c = if code f == code c then t else translate from to c

abbrev pub occurs_code : ℕ → String → Bool
occurs_code n [] = false
occurs_code n (d ∷ s) = code d == n || occurs_code n s

abbrev pub occurs : Char → String → Bool
occurs c [] = false
occurs c (d ∷ s) = code d == code c || occurs c s

abbrev pub lower_letters : String
lower_letters = "abcdefghijklmnopqrstuvwxyz"

abbrev pub upper_letters : String
upper_letters = "ABCDEFGHIJKLMNOPQRSTUVWXYZ"

-- net/textproto: the bytes of a header's name.
abbrev pub is_header_char : Char → Bool
is_header_char c =
    occurs c lower_letters || occurs c upper_letters || occurs c "0123456789!#$%&'*+-.^_`|~"

abbrev pub all_chars : (Char → Bool) → String → Bool
all_chars p [] = true
all_chars p (c ∷ s) = p c && all_chars p s

abbrev pub canonical_chars : (upper : Bool) → String → String
canonical_chars upper [] = []
canonical_chars upper (c ∷ s) =
    (if upper
      then translate lower_letters upper_letters c
      else translate upper_letters lower_letters c)
    ∷ canonical_chars (code c == b'-') s

-- `textproto.CanonicalMIMEHeaderKey`
unfoldable pub canonical_mime_header_key : String → String
canonical_mime_header_key s = if all_chars is_header_char s then canonical_chars true s else s

canonical_tests :
    (canonical_mime_header_key "aCCept-encoding" ≡ "Accept-Encoding")
    × (canonical_mime_header_key "host" ≡ "Host")
    × (canonical_mime_header_key "a b" ≡ "a b")
unfolding canonical_mime_header_key
canonical_tests = (refl, refl, refl)

-- `net.JoinHostPort`
unfoldable pub join_host_port : String → String → String
join_host_port host port =
    if occurs_code b':' host then "[" <> host <> "]:" <> port else host <> ":" <> port

text_tests :
    (trim_space " a b  " ≡ "a b")
    × (cut_last b';' "a;b;c" ≡ some ("a;b", "c"))
    × (trim_prefix "q=" "q=0.5" ≡ "0.5")
    × (split b',' "a,,b" ≡ "a" ∷ₗ "" ∷ₗ "b" ∷ₗ nil)
unfolding trim_space cut_last trim_prefix split
text_tests = (refl, refl, refl, refl)
