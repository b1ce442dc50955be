-- ===== src/Base/Int.antt =====
-- Signed numbers: Lua computes `now - span_secs` on doubles, where it may be negative.
use Prim.Native.Nat.{ℕ, ◌+◌, ◌-◌}
use mathlib.Core.Path.{◌≡◌}
use mathlib.Core.Bool.{Bool, true, false}
use native.Mathlib.Omega.{arith}
use postfix_ratelimitd.Base.Tests.{ltb, leb, if◌then◌else◌}

-- `negsuc n` is -(n + 1).
pub data ℤ : Type 0 where
  pos : ℕ → ℤ
  negsuc : ℕ → ℤ

-- a - b, as an integer.
abbrev pub sub_ℕ : ℕ → ℕ → ℤ
sub_ℕ a b = if leb b a then pos (a - b) else negsuc (b - a - 1)

-- n > z, n ≤ z for a natural n
abbrev pub exceeds : ℕ → ℤ → Bool
exceeds n (pos m) = ltb m n
exceeds n (negsuc m) = true

abbrev pub at_most : ℕ → ℤ → Bool
at_most n (pos m) = leb n m
at_most n (negsuc m) = false

pub exceeds-sub_ℕ : (n a b : ℕ) → exceeds n (sub_ℕ a b) ≡ ltb a (n + b)
exceeds-sub_ℕ n a b = ground arith

pub at_most-sub_ℕ : (n a b : ℕ) → at_most n (sub_ℕ a b) ≡ leb (n + b) a
at_most-sub_ℕ n a b = ground arith
