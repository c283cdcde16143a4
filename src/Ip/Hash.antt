-- ===== src/Ip/Hash.antt =====
-- The hash of an address is a 32-bit number and does not depend on the address's form.
use Prim.Native.Nat.{bit_xor}
use big_blackbox_exporter.Base.{
  ℕ, refl, false, take, ◌*◌, ◌%◌, ◌^◌, ◌<◌, ◌≡◌, List, [], ◌∷◌, ◌++◌, some, none, arith, length,
}
use big_blackbox_exporter.Ip.{Ip, bytes_eq, v4_prefix, to4, to16, fnv32a, offset32, or_nil, ip_hash}

fnv32a-lt : (hash : ℕ) (bytes : List ℕ) → hash < 2 ^ 32 → fnv32a hash bytes < 2 ^ 32
unfolding fnv32a
fnv32a-lt hash [] h = h
fnv32a-lt hash (b ∷ bytes) h = fnv32a-lt ((bit_xor hash b * 16777619) % 2 ^ 32) bytes (omega arith)

ip_hash-lt : (ip : Ip) → ip_hash ip < 2 ^ 32
unfolding ip_hash
ip_hash-lt ip =
    elim (to4 ip)
      as (λ o.
        elim o [ some v4 ↦ fnv32a offset32 v4 | none ↦ fnv32a offset32 (or_nil (to16 ip)) ]
        < 2 ^ 32) [
          | some v4 ↦ fnv32a-lt offset32 v4 (omega arith)
          | none ↦ fnv32a-lt offset32 (or_nil (to16 ip)) (omega arith)
        ]

to4-mapped : (ip : Ip) → length ip ≡ 4 → to4 (v4_prefix ++ ip) ≡ some ip
unfolding to4
to4-mapped ip h = ground arith

to4-v4 : (ip : Ip) → length ip ≡ 4 → to4 ip ≡ some ip
unfolding to4
to4-v4 ip h = ground arith

-- An address of 16 bytes that no IPv4 address is mapped to.
abbrev pub IsV6 : Ip → Type 0
IsV6 ip = (length ip ≡ 16) × (bytes_eq (take 12 ip) v4_prefix ≡ false)

to4-v6 : (ip : Ip) → IsV6 ip → to4 ip ≡ none
unfolding to4
to4-v6 ip (long, other) = rw (long, other) refl

to16-v6 : (ip : Ip) → IsV6 ip → to16 ip ≡ some ip
unfolding to16
to16-v6 ip (long, other) = rw long refl

-- The hash of an IPv4 address is the FNV-1a hash of its four bytes, whether it is given by them or
-- mapped into 16 bytes; that of any other address of 16 bytes is the FNV-1a hash of these. The hash
-- of every address is a 32-bit number.
pub ip_hash-mapped :
    (v4 v6 ip : Ip)
    → length v4 ≡ 4
    → IsV6 v6
    → (ip_hash v4 ≡ fnv32a offset32 v4)
      × (ip_hash (v4_prefix ++ v4) ≡ fnv32a offset32 v4)
      × (ip_hash v6 ≡ fnv32a offset32 v6)
      × (ip_hash ip < 2 ^ 32)
unfolding ip_hash
ip_hash-mapped v4 v6 ip short long = (
  ground (arith, to4-v4 v4 short),
  ground (arith, to4-mapped v4 short),
  ground (arith, to4-v6 v6 long, to16-v6 v6 long),
  ip_hash-lt ip,
)
