-- ===== src/Icmp/Message.antt =====
-- prober/icmp.go: the payload of a request, and the loop that waits for its reply.
--
-- The bytes of a message are what `icmp.Message.Marshal` makes of it, a parameter of the probe.
-- What a read of the socket gives is an input of the loop: `reads` are the reads up to the
-- timeout of the deadline, which ends the loop.
pub mod Reply
use Prim.Native.Char.{code}
use big_blackbox_exporter.Base.{
  ℕ, zero, suc, ◌+◌, ◌-◌, Bool, true, false, not, ◌&&◌, ◌||◌, List, [], ◌∷◌, ◌++◌, String, Option,
  some, none, str_eq, ltb, leb, ◌==◌, length, take, if◌then◌else◌,
}
use big_blackbox_exporter.Base.Int.{ℤ, pos, negsuc, ltb_ℤ}
use big_blackbox_exporter.Ip.{bytes_eq}

-- `ipv4.ICMPTypeEcho` and its kin
pub data IcmpType : Type 0 where
  echo_v4 echo_reply_v4 echo_v6 echo_reply_v6 : IcmpType

-- `icmp.Message` with the body `icmp.Echo`; its code is 0.
pub record Message : Type 0 where
  pub typ : IcmpType
  pub id : ℕ
  pub seq : ℕ
  pub payload : List ℕ

abbrev pub bytes_of : String → List ℕ
bytes_of String.[] = []
bytes_of (String.◌∷◌ c s) = code c ∷ bytes_of s

abbrev pub exporter_bytes : List ℕ
exporter_bytes = bytes_of "Prometheus Blackbox Exporter"

-- `copy` of `from` into `n` zeros.
unfoldable pub copy_into_zeros : (n : ℕ) → (from : List ℕ) → List ℕ
copy_into_zeros zero from = []
copy_into_zeros (suc n) [] = 0 ∷ copy_into_zeros n []
copy_into_zeros (suc n) (b ∷ bytes) = b ∷ copy_into_zeros n bytes

-- The data of a request by `payload_size`. `make` panics on a negative length, and on one above the
-- platform's limit for an allocation.
unfoldable pub payload : (max_alloc : ℕ) → ℤ → Option (List ℕ)
unfolding copy_into_zeros
payload max_alloc (pos zero) = some exporter_bytes
payload max_alloc (pos (suc n)) =
    if leb (suc n) max_alloc then some (copy_into_zeros (suc n) exporter_bytes) else none
payload max_alloc (negsuc n) = none

-- `bytes[i] = 0`, which does nothing to a packet that is shorter: what lies behind it in the
-- buffer is not compared.
abbrev pub clear : ℕ → List ℕ → List ℕ
clear i [] = []
clear zero (b ∷ bytes) = 0 ∷ bytes
clear (suc i) (b ∷ bytes) = b ∷ clear i bytes

abbrev pub clear_pair : ℕ → List ℕ → List ℕ
clear_pair i bytes = clear (suc i) (clear i bytes)

-- A packet with the address that it came from, and the hop limit of its control message.
pub record Packet : Type 0 where
  pub bytes : List ℕ
  pub peer : String
  pub control : Option ℤ

pub data Read : Type 0 where
  received : Packet → Read
  -- an error that is no timeout
  read_error : Read

-- What the loop knows of the request.
pub record Expected : Type 0 where
  pub reply_type : IcmpType
  pub id_unknown : Bool
  pub destination : String
  pub bytes : List ℕ
  pub hop_limit_flag_set : Bool

abbrev pub is_reply_v6 : IcmpType → Bool
is_reply_v6 echo_reply_v6 = true
is_reply_v6 _ = false

-- The bytes of a packet as they are compared: without the ID and the checksum, where those are
-- the kernel's.
unfoldable pub comparable : Expected → List ℕ → List ℕ
comparable e bytes =
    let bytes' = if e.id_unknown then clear_pair 4 bytes else bytes in
    if e.id_unknown || is_reply_v6 e.reply_type then clear_pair 2 bytes' else bytes'

unfoldable pub is_match : Expected → Packet → Bool
unfolding comparable
is_match e p = str_eq p.peer e.destination && bytes_eq (comparable e p.bytes) e.bytes

abbrev pub or_minus_one : Option ℤ → ℤ
or_minus_one none = negsuc 0
or_minus_one (some limit) = limit

-- `hopLimit`, which is -1 where it is not known.
abbrev pub hop_limit : Expected → Packet → ℤ
hop_limit e p = if e.hop_limit_flag_set then or_minus_one p.control else negsuc 0

-- The loop: the hop limit of the packet that matches, or nothing after the timeout.
unfoldable pub await_reply : Expected → List Read → Option ℤ
unfolding is_match
await_reply e [] = none
await_reply e (read_error ∷ reads) = await_reply e reads
await_reply e (received p ∷ reads) =
    if is_match e p then some (hop_limit e p) else await_reply e reads
