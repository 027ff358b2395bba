-- ===== src/Base/Float.antt =====
-- float64 arithmetic, which no file of the repository implements: its operations are a parameter.
use mathlib.Core.Path.{◌≡◌}
use mathlib.Core.Bool.{Bool, true, not}
use Prim.Native.Nat.{ℕ, ◌^◌, ◌≤◌}

-- The operations that the program uses. `leb a b` is `a <= b`, `ltb a b` is `a < b` and `beq a b`
-- is `a == b`; `of_nat` converts an integer, and `floor` is the conversion to uint64.
pub record Float : Type 1 where
  pub Num : Type 0
  pub of_nat : ℕ → Num
  pub floor : Num → ℕ
  pub add : Num → Num → Num
  pub sub : Num → Num → Num
  pub mul : Num → Num → Num
  pub div : Num → Num → Num
  pub leb : Num → Num → Bool
  pub ltb : Num → Num → Bool
  pub beq : Num → Num → Bool
  pub max : Num → Num → Num
  pub min : Num → Num → Num
  -- `b.Sub(a).Seconds()` of two times, in nanoseconds
  pub seconds : ℕ → ℕ → Num

-- a number from 0 to 2 ^ 63, so neither NaN nor infinite
abbrev pub Within : (F : Float) → F.Num → Type 0
Within F a = (F.leb (F.of_nat 0) a ≡ true) × (F.leb a (F.of_nat (2 ^ 63)) ≡ true)

-- What the theorems use of IEEE 754 arithmetic, NaN and infinities included: a comparison with NaN
-- is false, a sum of numbers that are not negative is not NaN but may be infinite, and products and
-- differences are used only where they are not NaN.
pub record IsOrdered (F : Float) : Type 0 where
  pub refl_of_le : (a b : F.Num) → F.leb a b ≡ true → (F.leb a a ≡ true) × (F.leb b b ≡ true)
  pub le_trans : (a b c : F.Num) → F.leb a b ≡ true → F.leb b c ≡ true → F.leb a c ≡ true
  pub ltb-not-leb :
      (a b : F.Num) → F.leb a a ≡ true → F.leb b b ≡ true → F.ltb a b ≡ not (F.leb b a)
  pub of_nat_mono : (m n : ℕ) → m ≤ n → F.leb (F.of_nat m) (F.of_nat n) ≡ true
  pub sub_nonneg :
      (a b : F.Num) → Within F b → F.leb b a ≡ true → F.leb (F.of_nat 0) (F.sub a b) ≡ true
  pub sub_le : (a b : F.Num) → Within F b → F.leb a a ≡ true → F.leb (F.sub a b) a ≡ true
  pub add_nonneg :
      (a b : F.Num)
      → F.leb (F.of_nat 0) a ≡ true
      → F.leb (F.of_nat 0) b ≡ true
      → F.leb (F.of_nat 0) (F.add a b) ≡ true
  pub mul_nonneg : (a b : F.Num) → Within F a → Within F b → F.leb (F.of_nat 0) (F.mul a b) ≡ true
  -- shares of a number
  pub mul_mono :
      (n : ℕ) (a b : F.Num)
      → n ≤ 2 ^ 63
      → F.leb (F.of_nat 0) a ≡ true
      → F.leb a b ≡ true
      → F.leb b (F.of_nat 1) ≡ true
      → F.leb (F.mul (F.of_nat n) a) (F.mul (F.of_nat n) b) ≡ true
  pub mul_le :
      (n : ℕ) (a : F.Num)
      → n ≤ 2 ^ 63
      → F.leb (F.of_nat 0) a ≡ true
      → F.leb a (F.of_nat 1) ≡ true
      → F.leb (F.mul (F.of_nat n) a) (F.of_nat n) ≡ true
  pub min_mono :
      (a b : F.Num) (n : ℕ)
      → F.leb a b ≡ true
      → F.leb (F.min a (F.of_nat n)) (F.min b (F.of_nat n)) ≡ true
  pub min_le :
      (a : F.Num) (n : ℕ) → F.leb a a ≡ true → F.leb (F.min a (F.of_nat n)) (F.of_nat n) ≡ true
  pub max_mono :
      (a b : F.Num) (n : ℕ)
      → F.leb a b ≡ true
      → F.leb (F.max (F.of_nat n) a) (F.max (F.of_nat n) b) ≡ true
  pub le_max :
      (a : F.Num) (n : ℕ) → F.leb a a ≡ true → F.leb (F.of_nat n) (F.max (F.of_nat n) a) ≡ true
  pub max_le : (a b c : F.Num) → F.leb a c ≡ true → F.leb b c ≡ true → F.leb (F.max a b) c ≡ true
  -- the conversion of numbers that a uint64 can hold
  pub floor_mono :
      (a b : F.Num) → Within F a → Within F b → F.leb a b ≡ true → F.floor a ≤ F.floor b
  pub seconds-Within : (a b : ℕ) → a ≤ b → Within F (F.seconds a b)
