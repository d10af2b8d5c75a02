-- ===== src/Prelude/Int.antt =====
-- Signed integers over the native numbers, for the fields that the source checks for a sign.
use Prim.Native.Nat.{ℕ, zero, suc, ◌+◌, ◌-◌, ◌^◌, ◌≤◌, ◌<◌}
use mathlib.Core.Path.{◌≡◌}
use native.Mathlib.Omega.{arith}
use mathlib.Core.Bool.{Bool}
use inferno_sim.Prelude.Tests.{ltb, ◌==◌, if◌then◌else◌}

-- `negsuc n` is -(n + 1).
pub data ℤ : Type 0 where
  pos : ℕ → ℤ
  negsuc : ℕ → ℤ

abbrev pub pos_part : ℤ → ℕ
pos_part (pos n) = n
pos_part (negsuc n) = 0

abbrev pub neg_part : ℤ → ℕ
neg_part (pos n) = 0
neg_part (negsuc n) = suc n

infix 50 ◌≤ℤ◌
abbrev pub ◌≤ℤ◌ : ℤ → ℤ → Type 0
a ≤ℤ b = pos_part a + neg_part b ≤ pos_part b + neg_part a

infix 50 ◌<ℤ◌
abbrev pub ◌<ℤ◌ : ℤ → ℤ → Type 0
a <ℤ b = pos_part a + neg_part b < pos_part b + neg_part a

-- An int64 and the next: the largest is followed by the smallest.
abbrev pub max_int64 : ℕ
max_int64 = 2 ^ 63 - 1

abbrev pub succ64 : ℤ → ℤ
succ64 (pos n) = if n == max_int64 then negsuc max_int64 else pos (suc n)
succ64 (negsuc zero) = pos 0
succ64 (negsuc (suc n)) = negsuc n

-- Below the largest the next is one more.
pub succ64-next :
    (z : ℤ)
    → pos_part z < max_int64
    → pos_part (succ64 z) + neg_part z ≡ pos_part z + neg_part (succ64 z) + 1
succ64-next (pos n) h = ground arith
succ64-next (negsuc zero) h = omega arith
succ64-next (negsuc (suc n)) h = omega arith

pub pos_part-succ64 : (z : ℤ) → pos_part z < max_int64 → pos_part (succ64 z) ≤ pos_part z + 1
pos_part-succ64 (pos n) h = ground arith
pos_part-succ64 (negsuc zero) h = omega arith
pos_part-succ64 (negsuc (suc n)) h = omega arith

abbrev pub ltb_ℤ : ℤ → ℤ → Bool
ltb_ℤ a b = ltb (pos_part a + neg_part b) (pos_part b + neg_part a)
