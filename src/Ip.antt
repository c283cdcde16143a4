-- ===== src/Ip.antt =====
-- Go's net.IP and net.IPAddr, as far as prober/utils.go takes an address apart, and `ipHash`.
pub mod Hash
mod Tests
use Prim.Native.Nat.{bit_xor}
use big_blackbox_exporter.Base.{
  ℕ, zero, suc, ◌*◌, ◌%◌, ◌^◌, Bool, true, false, ◌&&◌, List, [], ◌∷◌, ◌++◌, String, Option, some,
  none, ◌==◌, if◌then◌else◌, length, take, drop, all,
}

-- `net.IP`: 4 or 16 bytes.
abbrev pub Ip : Type 0
Ip = List ℕ

-- `net.IPAddr`
pub record IpAddr : Type 0 where
  pub ip : Ip
  pub zone : String

abbrev pub v4_prefix : List ℕ
v4_prefix = 0 ∷ 0 ∷ 0 ∷ 0 ∷ 0 ∷ 0 ∷ 0 ∷ 0 ∷ 0 ∷ 0 ∷ 255 ∷ 255 ∷ []

abbrev pub bytes_eq : List ℕ → List ℕ → Bool
bytes_eq [] [] = true
bytes_eq (a ∷ more) (b ∷ others) = a == b && bytes_eq more others
bytes_eq _ _ = false

-- `net.IP.To4`
unfoldable pub to4 : Ip → Option Ip
to4 ip =
    if length ip == 4
    then some ip
    else if length ip == 16 && bytes_eq (take 12 ip) v4_prefix
    then some (drop 12 ip)
    else none

-- `net.IP.To16`
unfoldable pub to16 : Ip → Option Ip
to16 ip =
    if length ip == 4 then some (v4_prefix ++ ip) else if length ip == 16 then some ip else none

unfoldable pub is_v4 : Ip → Bool
unfolding to4
is_v4 ip = elim (to4 ip) [ some _ ↦ true | none ↦ false ]

-- `fnv.New32a` after `Write`
unfoldable pub fnv32a : ℕ → List ℕ → ℕ
fnv32a hash [] = hash
fnv32a hash (b ∷ bytes) = fnv32a ((bit_xor hash b * 16777619) % 2 ^ 32) bytes

abbrev pub offset32 : ℕ
offset32 = 2166136261

-- What `Write` is given: a nil slice has no bytes.
abbrev pub or_nil : Option Ip → Ip
or_nil (some bytes) = bytes
or_nil none = []

-- The number that `ipHash` turns into a float64.
unfoldable pub ip_hash : Ip → ℕ
unfolding to4 to16 fnv32a
ip_hash ip = elim (to4 ip) [
  | some v4 ↦ fnv32a offset32 v4
  | none ↦ fnv32a offset32 (or_nil (to16 ip))
]
