-- ===== src/Base/Bits.antt =====
-- Words read bit by bit: the bits of a conjunction and of a disjunction.
use Prim.Native.Nat.{
  ℕ, zero, suc, ◌+◌, ◌*◌, ◌/◌, ◌%◌, ◌^◌, ◌≤◌, ◌<◌, min, max, digits, bitwise, bit_and, bit_or,
  bit_and-bitwise, bit_or-bitwise,
}
use mathlib.Core.Path.{◌≡◌, refl, sym, ap, ◌∙◌}
use mathlib.Core.Logic.{inl, inr}
use native.Mathlib.Nat.{two-pow-succ}
use mathlib.Core.Bool.{Bool, true, false, ◌&&◌, ◌||◌}
use native.Mathlib.Omega.{arith}
use jaeger_client_go.Base.Tests.{◌==◌, ==_iff, Bool-cases}

-- Whether bit `k` of a word is set.
abbrev pub test_bit : ℕ → ℕ → Bool
test_bit v zero = v % 2 == 1
test_bit v (suc k) = test_bit (v / 2) k

pub test_bit-zero : (k : ℕ) → test_bit 0 k ≡ false
test_bit-zero zero = refl
test_bit-zero (suc k) = test_bit-zero k

-- An operation by digits acts on each bit, if it does on a digit and where a word has run out.
module _ (z : ℕ → ℕ) (f : ℕ → ℕ → ℕ) (op : Bool → Bool → Bool)
    (run_out : (b k : ℕ) → test_bit (z b) k ≡ op false (test_bit b k))
    (small : (x y : ℕ) → x < 2 → y < 2 → f x y < 2)
    (digit : (x y : ℕ) → x < 2 → y < 2 → (f x y == 1) ≡ op (x == 1) (y == 1)) where
  fuel_lem : (m n a b : ℕ) → a ≤ m → a ≤ n → digits z f m a b ≡ digits z f n a b
  fuel_lem zero zero a b hm hn = refl
  fuel_lem zero (suc n) zero b hm hn = refl
  fuel_lem (suc m) zero zero b hm hn = refl
  fuel_lem (suc m) (suc n) zero b hm hn = refl
  fuel_lem zero (suc n) (suc a) b hm hn = absurd (omega arith)
  fuel_lem (suc m) zero (suc a) b hm hn = absurd (omega arith)
  fuel_lem (suc m) (suc n) (suc a) b hm hn =
      ap (λ d. d * 2 + f (suc a % 2) (b % 2))
        (fuel_lem m n (suc a / 2) (b / 2) (omega arith) (omega arith))

  last_digit :
      (a b : ℕ)
      → bitwise z f (suc a) b ≡ bitwise z f (suc a / 2) (b / 2) * 2 + f (suc a % 2) (b % 2)
  last_digit a b =
      ap (λ d. d * 2 + f (suc a % 2) (b % 2))
        (fuel_lem a (suc a / 2) (suc a / 2) (b / 2) (omega arith) (omega arith))

  pub test_bit-bitwise :
      (k a b : ℕ) → test_bit (bitwise z f a b) k ≡ op (test_bit a k) (test_bit b k)
  test_bit-bitwise k zero b = run_out b k ∙ ap (λ t. op t (test_bit b k)) (sym (test_bit-zero k))
  test_bit-bitwise zero (suc a) b =
      let e : bitwise z f (suc a) b % 2 ≡ f (suc a % 2) (b % 2) =
        omega (arith, last_digit a b, small (suc a % 2) (b % 2) (omega arith) (omega arith)) in
      rw e (digit (suc a % 2) (b % 2) (omega arith) (omega arith))
  test_bit-bitwise (suc k) (suc a) b =
      let e : bitwise z f (suc a) b / 2 ≡ bitwise z f (suc a / 2) (b / 2) =
        omega (arith, last_digit a b, small (suc a % 2) (b % 2) (omega arith) (omega arith)) in
      rw e (test_bit-bitwise k (suc a / 2) (b / 2))

pub test_bit-bit_and : (k a b : ℕ) → test_bit (bit_and a b) k ≡ (test_bit a k && test_bit b k)
test_bit-bit_and k a b =
    ap (λ v. test_bit v k) (bit_and-bitwise a b)
    ∙ test_bit-bitwise (λ b. 0) min ◌&&◌ (λ b k. test_bit-zero k) (λ x y p q. omega arith)
        (λ x y p q. ground arith) k a b

pub test_bit-bit_or : (k a b : ℕ) → test_bit (bit_or a b) k ≡ (test_bit a k || test_bit b k)
test_bit-bit_or k a b =
    ap (λ v. test_bit v k) (bit_or-bitwise a b)
    ∙ test_bit-bitwise (λ b. b) max ◌||◌ (λ b k. refl) (λ x y p q. omega arith)
        (λ x y p q. ground arith) k a b

and_false : (b : Bool) → (b && false) ≡ false
and_false true = refl
and_false false = refl

test_bit-ext_fuel : (n a b : ℕ) → a ≤ n → b ≤ n → ((k : ℕ) → test_bit a k ≡ test_bit b k) → a ≡ b
test_bit-ext_fuel zero a b ha hb h = omega arith
test_bit-ext_fuel (suc n) a b ha hb h =
    let halves : a / 2 ≡ b / 2 =
      test_bit-ext_fuel n (a / 2) (b / 2) (omega arith) (omega arith) (λ k. h (suc k)) in
    let parity : (a % 2 == 1) ≡ (b % 2 == 1) = h 0 in ground arith

-- Numbers with the same bits are the same.
test_bit-ext : (a b : ℕ) → ((k : ℕ) → test_bit a k ≡ test_bit b k) → a ≡ b
test_bit-ext a b h = test_bit-ext_fuel (a + b) a b (omega arith) (omega arith) h

pub test_bit-pow : (j k : ℕ) → test_bit (2 ^ j) k ≡ (k == j)
test_bit-pow zero zero = refl
test_bit-pow zero (suc k) = test_bit-zero k ∙ ground arith
test_bit-pow (suc j) zero = ground (arith, two-pow-succ j)
test_bit-pow (suc j) (suc k) =
    let half : 2 ^ suc j / 2 ≡ 2 ^ j = omega (arith, two-pow-succ j) in
    rw half (test_bit-pow j k ∙ ground arith)

masked_bit : (v j k : ℕ) → test_bit v j ≡ true → test_bit (bit_and v (2 ^ j)) k ≡ test_bit (2 ^ j) k
masked_bit v j k h = test_bit-bit_and k v (2 ^ j) ∙ elim (Bool-cases (k == j)) [
  | inl same ↦ let e : k ≡ j = (==_iff k j).0 same in rw (e, h) refl
  | inr other ↦ rw (test_bit-pow j k, other) (and_false (test_bit v k))
]

-- The test of a bit by a mask.
pub mask_lem : (v j : ℕ) → (bit_and v (2 ^ j) == 2 ^ j) ≡ test_bit v j
mask_lem v j = elim (Bool-cases (test_bit v j)) [
  | inl yes_set ↦ rw yes_set (
      (==_iff (bit_and v (2 ^ j)) (2 ^ j)).1
        (test_bit-ext (bit_and v (2 ^ j)) (2 ^ j) (λ k. masked_bit v j k yes_set)))
  | inr unset ↦ elim (Bool-cases (bit_and v (2 ^ j) == 2 ^ j)) [
    | inr differs ↦ rw (differs, unset) refl
    | inl same ↦
        let e : bit_and v (2 ^ j) ≡ 2 ^ j = (==_iff (bit_and v (2 ^ j)) (2 ^ j)).0 same in
        absurd (
          ground (
            arith,
            ap (λ w. test_bit w j) e,
            test_bit-bit_and j v (2 ^ j),
            test_bit-pow j j,
            unset,
          ))
  ]
]

or_false : (b : Bool) → b ≡ (b || false)
or_false true = refl
or_false false = refl

test_bit-shifted :
    (j k x b : ℕ)
    → b < 2 ^ j
    → test_bit (x * 2 ^ j + b) k ≡ (test_bit (x * 2 ^ j) k || test_bit b k)
test_bit-shifted zero k x b h =
    let e : b ≡ 0 = omega arith in
    rw e (
      rw (test_bit-zero k)
        (let s : x * 1 + 0 ≡ x * 1 = omega arith in rw s (or_false (test_bit (x * 1) k))))
test_bit-shifted (suc j) zero x b h =
    let e : x * 2 ^ suc j ≡ (x * 2 ^ j) * 2 =
      omega (arith, ap (λ (t : ℕ). x * t) (two-pow-succ j)) in
    ground (arith, e)
test_bit-shifted (suc j) (suc k) x b h =
    let e : x * 2 ^ suc j ≡ (x * 2 ^ j) * 2 =
      omega (arith, ap (λ (t : ℕ). x * t) (two-pow-succ j)) in
    let half : (x * 2 ^ suc j + b) / 2 ≡ x * 2 ^ j + b / 2 = omega (arith, e) in
    let half' : (x * 2 ^ suc j) / 2 ≡ x * 2 ^ j = omega (arith, e) in
    rw (half, half') (test_bit-shifted j k x (b / 2) (omega (arith, two-pow-succ j)))

-- A word shifted to the left has room for the bits of a smaller one.
pub bit_or_shifted : (j x b : ℕ) → b < 2 ^ j → bit_or (x * 2 ^ j) b ≡ x * 2 ^ j + b
bit_or_shifted j x b h =
    test_bit-ext (bit_or (x * 2 ^ j) b) (x * 2 ^ j + b)
      (λ k. test_bit-bit_or k (x * 2 ^ j) b ∙ sym (test_bit-shifted j k x b h))
