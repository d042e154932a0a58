-- ===== src/Prelude/Int.antt =====
-- An `int` that may be negative, over the native numbers.
use Prim.Native.Nat.{ℕ, ◌+◌, ◌-◌}
use mathlib.Core.Bool.{Bool, true, false}
use rotty.Prelude.Tests.{ltb, leb, if◌then◌else◌}

-- `negsuc n` is -(n + 1).
pub data ℤ : Type 0 where
  pos : ℕ → ℤ
  negsuc : ℕ → ℤ

-- Comparisons with a number that is not negative.
abbrev pub at_most : ℤ → ℕ → Bool
at_most (pos i) n = leb i n
at_most (negsuc i) n = true

abbrev pub exceeds : ℤ → ℕ → Bool
exceeds (pos i) n = ltb n i
exceeds (negsuc i) n = false

-- The difference.
abbrev pub minus : ℤ → ℕ → ℤ
minus (pos i) n = if leb n i then pos (i - n) else negsuc (n - i - 1)
minus (negsuc i) n = negsuc (i + n)
