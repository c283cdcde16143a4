-- ===== src/Config/Encoding.antt =====
-- config/config.go: `isCompressionAcceptEncodingValid`.
--
-- A quality is a float32: the operations on float32 and float64 are parameters.
pub mod Soundness
use big_blackbox_exporter.Base.{
  Bool, true, false, ◌||◌, List, [], ◌∷◌, String, Option, some, none, str_eq, map, if◌then◌else◌,
}
use big_blackbox_exporter.Base.Text.{split, trim_space, trim_prefix, cut_last}

-- The float32 operations, and with `Wide` the float64 ones, that the function needs.
pub record Quality : Type 1 where
  pub Num : Type 0
  pub zero : Num
  pub one : Num
  pub lt : Num → Num → Bool
  pub Wide : Type 0
  -- `strconv.ParseFloat` to 32 bits, as a float64, and whether it came without an error
  pub parse_float : String → Wide × Bool
  -- `q * 1000`, `math.Round`, `q / 1000` and `float32(q)`
  pub times_1000 : Wide → Wide
  pub round : Wide → Wide
  pub over_1000 : Wide → Wide
  pub to_float32 : Wide → Num

module _ (ql : Quality) where
  open ql use {Num, zero, one, lt, Wide, parse_float, times_1000, round, over_1000, to_float32}

  pub record EncodingQuality : Type 0 where
    pub encoding : String
    pub quality : Num

  -- One part between commas.
  abbrev pub rounded : Wide × Bool → Num
  rounded (q, ok) = if ok then to_float32 (over_1000 (round (times_1000 q))) else zero

  abbrev pub parse_quality : String → Num
  parse_quality str = rounded (parse_float str)

  unfoldable pub parse_part : String → EncodingQuality
  unfolding trim_space trim_prefix cut_last
  parse_part parts = elim (cut_last b';' parts) [
    | none ↦ record { encoding = trim_space parts; quality = one }
    | some (name, rest) ↦ record {
      encoding = trim_space name;
      quality = parse_quality (trim_prefix "q=" (trim_space rest));
    }
  ]

  -- `sort.SliceStable` by falling quality: an element goes before the first one that is smaller.
  unfoldable pub insert_stable : EncodingQuality → List EncodingQuality → List EncodingQuality
  insert_stable e [] = e ∷ []
  insert_stable e (x ∷ xs) = if lt e.quality x.quality then x ∷ insert_stable e xs else e ∷ x ∷ xs

  unfoldable pub sort_stable : List EncodingQuality → List EncodingQuality
  unfolding insert_stable
  sort_stable [] = []
  sort_stable (x ∷ xs) = insert_stable x (sort_stable xs)

  abbrev pub covers : String → EncodingQuality → Bool
  covers encoding e = str_eq encoding e.encoding || str_eq e.encoding "*"

  -- The last loop.
  unfoldable pub first_quality : String → List EncodingQuality → Bool
  first_quality encoding [] = false
  first_quality encoding (e ∷ es) =
      if covers encoding e then lt zero e.quality else first_quality encoding es

  abbrev pub encodings : String → List EncodingQuality
  encodings accept_encoding = map parse_part (split b',' accept_encoding)

  unfoldable pub is_compression_accept_encoding_valid : String → String → Bool
  unfolding first_quality sort_stable parse_part split
  is_compression_accept_encoding_valid encoding accept_encoding =
      if str_eq encoding "" || str_eq accept_encoding ""
      then true
      else first_quality encoding (sort_stable (encodings accept_encoding))
