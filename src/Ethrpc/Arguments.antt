-- ===== src/Ethrpc/Arguments.antt =====
-- prober/ethrpc.go: the arguments of a contract call.
--
-- `strconv`, the encoding of addresses and the types of package abi are parameters: the type of an
-- input is given by its text. The conversions of an int64 to a narrower type wrap.
use big_blackbox_exporter.Base.{
  ℕ, ◌-◌, ◌%◌, ◌^◌, Bool, List, [], ◌∷◌, String, Option, some, none, str_eq, ltb, if◌then◌else◌,
}
use big_blackbox_exporter.Base.Text.{contains_text}
use big_blackbox_exporter.Base.Int.{ℤ, pos, negsuc}

-- A value that is packed; `integer` has its type's name.
pub data Arg : Type 0 where
  address : List ℕ → Arg
  integer : (typ : String) → ℤ → Arg
  big_integer : ℤ → Arg
  boolean : Bool → Arg
  verbatim : String → Arg

-- The conversion to an unsigned type of `w` bits.
unfoldable pub unsigned : (w : ℕ) → ℤ → ℕ
unsigned w (pos n) = n % 2 ^ w
unsigned w (negsuc n) = 2 ^ w - 1 - n % 2 ^ w

-- The conversion to a signed type of `w` bits.
unfoldable pub signed : (w : ℕ) → ℤ → ℤ
unfolding unsigned
signed w n =
    if ltb (unsigned w n) (2 ^ (w - 1))
    then pos (unsigned w n)
    else negsuc (2 ^ w - 1 - unsigned w n)

-- The switch on the name of an integer type.
unfoldable pub integer_arg : (typ : String) → ℤ → Arg
unfolding signed
integer_arg typ n =
    if str_eq typ "int8"
    then integer typ (signed 8 n)
    else if str_eq typ "int16"
    then integer typ (signed 16 n)
    else if str_eq typ "int32"
    then integer typ (signed 32 n)
    else if str_eq typ "int64"
    then integer typ n
    else if str_eq typ "uint8"
    then integer typ (pos (unsigned 8 n))
    else if str_eq typ "uint16"
    then integer typ (pos (unsigned 16 n))
    else if str_eq typ "uint32"
    then integer typ (pos (unsigned 32 n))
    else if str_eq typ "uint64"
    then integer typ (pos (unsigned 64 n))
    else big_integer n

pub record ArgEnv : Type 0 where
  -- `common.HexToAddress`
  pub hex_to_address : String → List ℕ
  -- the value of `strconv.ParseInt(s, 10, 64)`, whose error is ignored
  pub parse_int : String → ℤ
  -- the value of `strconv.ParseBool`, whose error is logged
  pub parse_bool : String → Bool

unfoldable pub arg_of : ArgEnv → (typ input_arg : String) → Arg
unfolding integer_arg contains_text
arg_of env typ input_arg =
    if str_eq typ "address"
    then address (env.hex_to_address input_arg)
    else if contains_text typ "int"
    then integer_arg typ (env.parse_int input_arg)
    else if str_eq typ "bool"
    then boolean (env.parse_bool input_arg)
    else verbatim input_arg

-- The loop over the inputs; `contractArgsStringArr[i]` panics where there are fewer texts.
unfoldable pub args_of : ArgEnv → (types : List String) → (inputs : List String) → Option (List Arg)
unfolding arg_of
args_of env [] inputs = some []
args_of env (typ ∷ types) [] = none
args_of env (typ ∷ types) (input ∷ inputs) = elim (args_of env types inputs) [
  | none ↦ none
  | some args ↦ some (arg_of env typ input ∷ args)
]
