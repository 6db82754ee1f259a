-- ===== src/Common/Int.antt =====
-- Signed integers over the native numbers, with the tests that the program makes of them.
use Prim.Native.Nat.{ℕ}
use mathlib.Core.Path.{◌≡◌}
use mathlib.Core.Bool.{Bool, true, false}
use native.Mathlib.Omega.{arith}
use node_red_contrib_mavlink.Common.Tests.{leb, ◌==◌}

-- `negsuc n` is -(n + 1).
pub data ℤ : Type 0 where
  pos : ℕ → ℤ
  negsuc : ℕ → ℤ

abbrev pub leb_ℤ : ℤ → ℤ → Bool
leb_ℤ (pos a) (pos b) = leb a b
leb_ℤ (pos a) (negsuc b) = false
leb_ℤ (negsuc a) (pos b) = true
leb_ℤ (negsuc a) (negsuc b) = leb b a

abbrev pub beq_ℤ : ℤ → ℤ → Bool
beq_ℤ (pos a) (pos b) = a == b
beq_ℤ (pos a) (negsuc b) = false
beq_ℤ (negsuc a) (pos b) = false
beq_ℤ (negsuc a) (negsuc b) = a == b

pub beq_ℤ_refl : (a : ℤ) → beq_ℤ a a ≡ true
beq_ℤ_refl (pos a) = ground arith
beq_ℤ_refl (negsuc a) = ground arith

pub beq_ℤ_eq : (a b : ℤ) → beq_ℤ a b ≡ true → a ≡ b
beq_ℤ_eq (pos a) (pos b) h = ground (arith, h)
beq_ℤ_eq (pos a) (negsuc b) h = ground (arith, h)
beq_ℤ_eq (negsuc a) (pos b) h = ground (arith, h)
beq_ℤ_eq (negsuc a) (negsuc b) h = ground (arith, h)
