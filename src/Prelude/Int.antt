-- ===== src/Prelude/Int.antt =====
-- Signed integers, for the source's `int`, `int64` and `time.Duration` values that may be negative.
use Prim.Native.Nat.{ℕ, ◌+◌, ◌-◌, ◌*◌}
use mathlib.Core.Bool.{Bool, true, false}
use xll_gen.Prelude.Tests.{ltb, if◌then◌else◌}

-- `negsuc n` is -(n + 1).
pub data ℤ : Type 0 where
  pos : ℕ → ℤ
  negsuc : ℕ → ℤ

abbrev pub is_negative : ℤ → Bool
is_negative (pos n) = false
is_negative (negsuc n) = true

-- `if v > 0 { return v }; return d`, the way an unset field takes its default.
abbrev pub positive_or : ℕ → ℤ → ℕ
positive_or d (pos n) = if ltb 0 n then n else d
positive_or d (negsuc n) = d

unfoldable sub_from : ℕ → ℕ → ℤ
sub_from n m = if ltb n m then negsuc (m - n - 1) else pos (n - m)

infixl 30 ◌+ℤ◌
unfoldable pub ◌+ℤ◌ : ℤ → ℤ → ℤ
unfolding sub_from
pos a +ℤ pos b = pos (a + b)
pos a +ℤ negsuc b = sub_from a (b + 1)
negsuc a +ℤ pos b = sub_from b (a + 1)
negsuc a +ℤ negsuc b = negsuc (a + b + 1)

infixl 35 ◌*ℤ◌
unfoldable pub ◌*ℤ◌ : ℤ → ℤ → ℤ
unfolding sub_from
pos a *ℤ pos b = pos (a * b)
pos a *ℤ negsuc b = sub_from 0 (a * (b + 1))
negsuc a *ℤ pos b = sub_from 0 ((a + 1) * b)
negsuc a *ℤ negsuc b = pos ((a + 1) * (b + 1))
