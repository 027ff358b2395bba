-- ===== src/SpanContext/Hex.antt =====
-- The number formats that span_context.go takes from `fmt` and `strconv`: `%016x`, `%x` and
-- `ParseUint`, and `strings.Split`.
pub mod RoundTrip
use jaeger_client_go.Base.{
  ℕ, zero, suc, ◌+◌, ◌-◌, ◌*◌, ◌/◌, ◌%◌, ◌^◌, ◌==◌, ltb, leb, ◌&&◌, if◌then◌else◌, Bool, true,
  false, List, [], ◌∷◌, ◌++◌, Option, none, some, Bytes,
}

-- a digit below 16, in lower case
unfoldable pub hex_digit : ℕ → ℕ
hex_digit d = if ltb d 10 then b'0' + d else b'a' + (d - 10)

-- The value of a digit or letter; ParseUint takes both cases.
unfoldable pub digit_value : ℕ → Option ℕ
digit_value c =
    if leb b'0' c && leb c b'9'
    then some (c - b'0')
    else if leb b'a' c && leb c b'z'
    then some (c - b'a' + 10)
    else if leb b'A' c && leb c b'Z'
    then some (c - b'A' + 10)
    else none

-- `%0nx` of a number of at most n digits
unfoldable pub hex_pad : ℕ → ℕ → Bytes
unfolding hex_digit
hex_pad zero v = []
hex_pad (suc n) v = hex_pad n (v / 16) ++ hex_digit (v % 16) ∷ []

-- `%x` of a number of at most n + 1 digits
unfoldable pub hex : ℕ → ℕ → Bytes
unfolding hex_digit
hex zero v = hex_digit (v % 16) ∷ []
hex (suc n) v =
    let front = hex n (v / 16) in
    if ltb v 16 then hex_digit v ∷ [] else front ++ hex_digit (v % 16) ∷ []

-- The loop of ParseUint: a bad digit and a number above the limit are errors.
unfoldable pub parse_digits : ℕ → ℕ → Bytes → ℕ → Option ℕ
unfolding digit_value
parse_digits base limit [] n = some n
parse_digits base limit (c ∷ s) n = elim (digit_value c) [
  | none ↦ none
  | some d ↦
      if leb base d
      then none
      else if leb limit (n * base + d)
      then none
      else parse_digits base limit s (n * base + d)
]

-- strconv.ParseUint(s, base, bits)
unfoldable pub parse_uint : Bytes → ℕ → ℕ → Option ℕ
unfolding parse_digits
parse_uint [] base bits = none
parse_uint (c ∷ s) base bits = parse_digits base (2 ^ bits) (c ∷ s) 0

-- strings.Split(s, sep) for a separator of one byte
unfoldable pub split_from : ℕ → Bytes → Bytes → List Bytes
split_from sep cur [] = cur ∷ []
split_from sep cur (c ∷ s) = elim (c == sep) [
  | true ↦ cur ∷ split_from sep [] s
  | false ↦ split_from sep (cur ++ c ∷ []) s
]

unfoldable pub split : Bytes → ℕ → List Bytes
unfolding split_from
split s sep = split_from sep [] s
