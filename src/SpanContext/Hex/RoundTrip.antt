-- ===== src/SpanContext/Hex/RoundTrip.antt =====
-- What is printed in hexadecimal is read back.
use native.Mathlib.Nat.{pow-suc}
use jaeger_client_go.Base.{
  ℕ, zero, suc, ◌+◌, ◌*◌, ◌/◌, ◌%◌, ◌^◌, ◌<◌, ◌≡◌, ◌≢◌, refl, ap, [], ◌∷◌, ◌++◌, append_assoc,
  append-nil, some, Bytes, arith, length, length-append, All, All-append, ◌∙◌, sym, inl, inr,
  Bool-cases, ltb,
}
use jaeger_client_go.SpanContext.Hex.{
  hex_digit, digit_value, hex_pad, hex, parse_digits, parse_uint, split_from,
}

digit_value-hex_digit : (d : ℕ) → d < 16 → digit_value (hex_digit d) ≡ some d
unfolding digit_value hex_digit
digit_value-hex_digit d h = ground arith

pub length-hex_pad : (n v : ℕ) → length (hex_pad n v) ≡ n
unfolding hex_pad
length-hex_pad zero v = refl
length-hex_pad (suc n) v =
    omega (
      arith,
      length-append (hex_pad n (v / 16)) (hex_digit (v % 16) ∷ []),
      length-hex_pad n (v / 16),
    )

-- reading one more digit
digit_step :
    (limit d n : ℕ) (s : Bytes)
    → d < 16
    → n * 16 + d < limit
    → parse_digits 16 limit (hex_digit d ∷ s) n ≡ parse_digits 16 limit s (n * 16 + d)
unfolding parse_digits
digit_step limit d n s h lt = rw (parse_digits, digit_value-hex_digit d h) (ground arith)

parse_digits-hex_pad :
    (n v limit : ℕ) (rest : Bytes)
    → v < 16 ^ n
    → v < limit
    → parse_digits 16 limit (hex_pad n v ++ rest) 0 ≡ parse_digits 16 limit rest v
unfolding hex_pad
parse_digits-hex_pad zero v limit rest h lt = let e : v ≡ 0 = omega arith in rw e
parse_digits-hex_pad (suc n) v limit rest h lt =
    let e = pow-suc 16 n in
    let whole : v / 16 * 16 + v % 16 ≡ v = omega arith in
    rw (append_assoc (hex_pad n (v / 16)) (hex_digit (v % 16) ∷ []) rest) (
      parse_digits-hex_pad n (v / 16) limit (hex_digit (v % 16) ∷ rest) (omega arith) (omega arith)
      ∙ digit_step limit (v % 16) (v / 16) rest (omega arith) (omega arith)
      ∙ ap (parse_digits 16 limit rest) whole)

parse_uint-cons :
    (s : Bytes) (base bits : ℕ) → s ≢ [] → parse_uint s base bits ≡ parse_digits base (2 ^ bits) s 0
unfolding parse_uint
parse_uint-cons [] base bits h = absurd (h refl)
parse_uint-cons (c ∷ s) base bits h = refl

hex_pad-ne-nil : (n v : ℕ) → 0 < n → hex_pad n v ≢ []
hex_pad-ne-nil n v h e = omega (arith, length-hex_pad n v, ap length e)

-- Sixteen digits hold every uint64.
pub parse_uint-hex_pad : (v : ℕ) → v < 2 ^ 64 → parse_uint (hex_pad 16 v) 16 64 ≡ some v
unfolding parse_digits
parse_uint-hex_pad v h =
    parse_uint-cons (hex_pad 16 v) 16 64 (hex_pad-ne-nil 16 v (omega arith))
    ∙ ap (λ s. parse_digits 16 (2 ^ 64) s 0) (sym (append-nil (hex_pad 16 v)))
    ∙ parse_digits-hex_pad 16 v (2 ^ 64) [] (omega arith) h

abbrev pub Lacks : ℕ → Bytes → Type 0
Lacks sep = All (λ c. c ≢ sep)

pub Lacks-append : (sep : ℕ) (xs ys : Bytes) → Lacks sep xs → Lacks sep ys → Lacks sep (xs ++ ys)
Lacks-append sep xs ys hx hy = All-append (λ c. c ≢ sep) xs ys hx hy

hex_digit-ne-colon : (d : ℕ) → hex_digit d ≢ b':'
unfolding hex_digit
hex_digit-ne-colon d = ground arith

-- What holds of every digit holds of the whole text.
module _ (P : ℕ → Type 0) (digit : (d : ℕ) → P (hex_digit d)) where
  pub hex_pad-All : (n v : ℕ) → All P (hex_pad n v)
  unfolding hex_pad
  hex_pad-All zero v = tt
  hex_pad-All (suc n) v =
      All-append P (hex_pad n (v / 16)) (hex_digit (v % 16) ∷ []) (hex_pad-All n (v / 16))
        (digit (v % 16), tt)

  pub hex-All : (n v : ℕ) → All P (hex n v)
  unfolding hex
  hex-All zero v = (digit (v % 16), tt)
  hex-All (suc n) v = elim (Bool-cases (ltb v 16)) [
    | inl small ↦ rw small (digit v, tt)
    | inr more ↦ rw more (
        All-append P (hex n (v / 16)) (hex_digit (v % 16) ∷ []) (hex-All n (v / 16))
          (digit (v % 16), tt))
  ]

pub hex_pad-Lacks : (n v : ℕ) → Lacks b':' (hex_pad n v)
hex_pad-Lacks = hex_pad-All (λ c. c ≢ b':') hex_digit-ne-colon

pub hex-Lacks : (n v : ℕ) → Lacks b':' (hex n v)
hex-Lacks = hex-All (λ c. c ≢ b':') hex_digit-ne-colon

pub split_from-Lacks :
    (sep : ℕ) (p cur rest : Bytes)
    → Lacks sep p
    → split_from sep cur (p ++ sep ∷ rest) ≡ (cur ++ p) ∷ split_from sep [] rest
unfolding split_from
split_from-Lacks sep [] cur rest h = rw append-nil (ground arith)
split_from-Lacks sep (c ∷ p) cur rest (hc, h) =
    ground (arith, split_from-Lacks sep p (cur ++ c ∷ []) rest h, append_assoc cur (c ∷ []) p)

pub split_from_last :
    (sep : ℕ) (p cur : Bytes) → Lacks sep p → split_from sep cur p ≡ (cur ++ p) ∷ []
unfolding split_from
split_from_last sep [] cur h = rw append-nil
split_from_last sep (c ∷ p) cur (hc, h) =
    ground (arith, split_from_last sep p (cur ++ c ∷ []) h, append_assoc cur (c ∷ []) p)
