-- ===== src/Icmp/Sequence.antt =====
-- prober/icmp.go: `getICMPSequence`, the id and the sequence numbers of the echo requests.
--
-- The mutex makes a call one step on the package's variable `icmpSequence`, a uint16.
use big_blackbox_exporter.Base.{
  ◌==◌, if◌then◌else◌, ℕ, zero, suc, ◌+◌, ◌%◌, ◌^◌, ◌<◌, ◌≡◌, ◌≢◌, arith,
}

-- `icmpID` as `init` sets it, where `random` is what `Intn(1 << 16)` gives.
unfoldable pub initial_icmp_id : (pid random : ℕ) → ℕ
initial_icmp_id pid random = if pid == 1 then random else pid % 2 ^ 16

-- The new value of `icmpSequence`, which is also what is returned.
unfoldable pub get_icmp_sequence : ℕ → ℕ
get_icmp_sequence icmp_sequence = (icmp_sequence + 1) % 2 ^ 16

-- What the call number `n`, counted from 0, returns after the variable was `start`.
unfoldable pub nth_sequence : (start : ℕ) → (n : ℕ) → ℕ
unfolding get_icmp_sequence
nth_sequence start zero = get_icmp_sequence start
nth_sequence start (suc n) = get_icmp_sequence (nth_sequence start n)

nth_sequence-eq-mod : (start n : ℕ) → nth_sequence start n ≡ (start + n + 1) % 2 ^ 16
unfolding nth_sequence
nth_sequence-eq-mod start zero = omega arith
nth_sequence-eq-mod start (suc n) = omega (arith, nth_sequence-eq-mod start n)

-- Every sequence number is a uint16, and two calls that are fewer than 65536 calls apart return
-- different ones.
pub nth_sequence-ne :
    (start i j : ℕ)
    → i < j
    → j < i + 2 ^ 16
    → (nth_sequence start i < 2 ^ 16) × (nth_sequence start i ≢ nth_sequence start j)
nth_sequence-ne start i j before near = (
  omega (arith, nth_sequence-eq-mod start i),
  λ e. omega (arith, nth_sequence-eq-mod start i, nth_sequence-eq-mod start j, e),
)
