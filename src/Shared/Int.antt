-- ===== src/Shared/Int.antt =====
-- Signed integers: `negsuc n` is -(n + 1).
use Prim.Native.Nat.{ℕ}
use mathlib.Core.Bool.{Bool, true, false}
use just_postgres.Shared.Tests.{◌==◌, ltb}

pub data ℤ : Type 0 where
  pos : ℕ → ℤ
  negsuc : ℕ → ℤ

infix 50 ◌==ℤ◌
abbrev pub ◌==ℤ◌ : ℤ → ℤ → Bool
pos a ==ℤ pos b = a == b
negsuc a ==ℤ negsuc b = a == b
_ ==ℤ _ = false

abbrev pub ltbℤ : ℤ → ℤ → Bool
ltbℤ (pos m) (pos n) = ltb m n
ltbℤ (pos m) (negsuc n) = false
ltbℤ (negsuc m) (pos n) = true
ltbℤ (negsuc m) (negsuc n) = ltb n m
