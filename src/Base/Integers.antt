-- ===== src/Base/Integers.antt =====
-- Signed integers over the native numbers: `negsuc n` is `- (n + 1)`.
use mathlib.Core.Bool.{Bool, false}
use Prim.Native.Nat.{ℕ, ◌+◌, ◌-◌, ◌/◌}
use jaeger_client_go.Base.Tests.{leb, ◌==◌, if◌then◌else◌}

pub data ℤ : Type 0 where
  pos negsuc : ℕ → ℤ

-- `a.Sub(b)` of two times
abbrev pub time_sub : ℕ → ℕ → ℤ
time_sub a b = if leb b a then pos (a - b) else negsuc (b - a - 1)

infixl 60 ◌+ℤ◌
abbrev pub ◌+ℤ◌ : ℤ → ℤ → ℤ
pos a +ℤ pos b = pos (a + b)
pos a +ℤ negsuc b = time_sub a (b + 1)
negsuc a +ℤ pos b = time_sub b (a + 1)
negsuc a +ℤ negsuc b = negsuc (a + b + 1)

-- Go's division of an integer by a natural number that is not 0, which rounds towards 0
abbrev pub quotient : ℤ → ℕ → ℤ
quotient (pos a) n = pos (a / n)
quotient (negsuc a) n = time_sub 0 ((a + 1) / n)

abbrev pub is_zero : ℤ → Bool
is_zero (pos a) = a == 0
is_zero (negsuc a) = false
