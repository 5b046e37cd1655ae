-- ===== src/Common/Int.antt =====
-- Signed machine integers (`i64`, `i32`): `negsuc n` is -(n + 1).
use server_backup.Common.Tests.{leb}
use Prim.Native.Nat.{ℕ}
use mathlib.Core.Path.{◌≡◌}
use mathlib.Core.Bool.{Bool, true, false}
use native.Mathlib.Omega.{arith}

pub data ℤ : Type 0 where
  pos : ℕ → ℤ
  negsuc : ℕ → ℤ

unfoldable pub int_le : ℤ → ℤ → Bool
int_le (pos a) (pos b) = leb a b
int_le (pos a) (negsuc b) = false
int_le (negsuc a) (pos b) = true
int_le (negsuc a) (negsuc b) = leb b a

pub int_le_total : (a b : ℤ) → int_le a b ≡ false → int_le b a ≡ true
unfolding int_le
int_le_total (pos a) (pos b) h = ground arith
int_le_total (pos a) (negsuc b) h = ground arith
int_le_total (negsuc a) (pos b) h = ground arith
int_le_total (negsuc a) (negsuc b) h = ground arith

pub int_le_trans : (a b c : ℤ) → int_le a b ≡ true → int_le b c ≡ true → int_le a c ≡ true
unfolding int_le
int_le_trans (pos a) (pos b) (pos c) h k = ground arith
int_le_trans (pos a) (pos b) (negsuc c) h k = ground arith
int_le_trans (pos a) (negsuc b) c h k = ground arith
int_le_trans (negsuc a) (pos b) (pos c) h k = ground arith
int_le_trans (negsuc a) (pos b) (negsuc c) h k = ground arith
int_le_trans (negsuc a) (negsuc b) (pos c) h k = ground arith
int_le_trans (negsuc a) (negsuc b) (negsuc c) h k = ground arith
