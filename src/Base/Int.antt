-- ===== src/Base/Int.antt =====
-- Signed integers over the native numbers: `negsuc n` is -(n + 1).
use Prim.Native.Nat.{ℕ}
use mathlib.Core.Path.{◌≡◌, refl}
use mathlib.Core.Bool.{Bool, true, false}
use mathlib.Core.Logic.{◌↔◌}
use native.Mathlib.Omega.{arith}
use big_blackbox_exporter.Base.Tests.{◌==◌, ltb}

pub data ℤ : Type 0 where
  pos : ℕ → ℤ
  negsuc : ℕ → ℤ

abbrev pub eqb_ℤ : ℤ → ℤ → Bool
eqb_ℤ (pos a) (pos b) = a == b
eqb_ℤ (negsuc a) (negsuc b) = a == b
eqb_ℤ _ _ = false

abbrev pub ltb_ℤ : ℤ → ℤ → Bool
ltb_ℤ (pos a) (pos b) = ltb a b
ltb_ℤ (pos a) (negsuc b) = false
ltb_ℤ (negsuc a) (pos b) = true
ltb_ℤ (negsuc a) (negsuc b) = ltb b a

pub eqb_ℤ_iff : (a b : ℤ) → (eqb_ℤ a b ≡ true) ↔ (a ≡ b)
eqb_ℤ_iff (pos a) (pos b) = ground arith
eqb_ℤ_iff (negsuc a) (negsuc b) = ground arith
eqb_ℤ_iff (pos a) (negsuc b) = ground arith
eqb_ℤ_iff (negsuc a) (pos b) = ground arith

-- `≤`, spelled by the test for `<`.
pub not_lt_trans : (a b c : ℤ) → ltb_ℤ b a ≡ false → ltb_ℤ c b ≡ false → ltb_ℤ c a ≡ false
not_lt_trans (pos a) (pos b) (pos c) h k = ground arith
not_lt_trans (pos a) (pos b) (negsuc c) h k = cc
not_lt_trans (pos a) (negsuc b) c h k = cc
not_lt_trans (negsuc a) (pos b) (pos c) h k = refl
not_lt_trans (negsuc a) (pos b) (negsuc c) h k = cc
not_lt_trans (negsuc a) (negsuc b) (pos c) h k = refl
not_lt_trans (negsuc a) (negsuc b) (negsuc c) h k = ground arith

pub not_lt_of_lt : (a b : ℤ) → ltb_ℤ a b ≡ true → ltb_ℤ b a ≡ false
not_lt_of_lt (pos a) (pos b) h = ground arith
not_lt_of_lt (pos a) (negsuc b) h = cc
not_lt_of_lt (negsuc a) (pos b) h = refl
not_lt_of_lt (negsuc a) (negsuc b) h = ground arith

pub lt_irrefl : (a : ℤ) → ltb_ℤ a a ≡ false
lt_irrefl (pos a) = ground arith
lt_irrefl (negsuc a) = ground arith
