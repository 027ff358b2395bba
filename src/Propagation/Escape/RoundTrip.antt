-- ===== src/Propagation/Escape/RoundTrip.antt =====
-- What is escaped is read back.
use jaeger_client_go.Base.{
  ℕ, ◌/◌, ◌%◌, ◌<◌, ◌==◌, ◌&&◌, ltb, Bool, not, true, false, [], ◌∷◌, ◌++◌, some, Bytes, ◌≡◌, ◌≢◌,
  refl, All, arith, Bool-cases, inl, inr,
}
use jaeger_client_go.Propagation.Escape.{
  is_unreserved, upper_hex, unhex, escape_byte, query_escape, plain, prepend, unescape_from,
  query_unescape, within, has_prefix,
}

unhex-upper_hex : (d : ℕ) → d < 16 → unhex (upper_hex d) ≡ some d
unfolding unhex upper_hex
unhex-upper_hex d h = ground arith

is_unreserved-copied :
    (c : ℕ) → is_unreserved c ≡ true → ((c == b'%') ≡ false) × ((c == b'+') ≡ false)
unfolding is_unreserved
is_unreserved-copied c h = ground arith

unescape-escape_byte :
    (c : ℕ) (rest : Bytes)
    → c < 256
    → unescape_from plain (escape_byte c ++ rest) ≡ prepend c (unescape_from plain rest)
unfolding escape_byte unescape_from
unescape-escape_byte c rest h = elim (Bool-cases (is_unreserved c)) [
  | inl kept ↦ let (p, q) = is_unreserved-copied c kept in rw (kept, p, q) refl
  | inr coded ↦ elim (Bool-cases (c == b' ')) [
    | inl space ↦ rw (coded, space) (ground (arith, space))
    | inr other ↦
        rw (coded, other)
          (ground
            (arith, unhex-upper_hex (c / 16) (omega arith), unhex-upper_hex (c % 16) (omega arith)))
  ]
]

pub query_unescape-query_escape :
    (s : Bytes) → All (λ c. c < 256) s → query_unescape (query_escape s) ≡ some s
unfolding query_unescape query_escape
query_unescape-query_escape [] h = refl
query_unescape-query_escape (c ∷ s) (hc, h) =
    rw (unescape-escape_byte c (query_escape s) hc, query_unescape-query_escape s h) refl

-- a byte that the decoder copies
abbrev pub IsCopied : ℕ → Type 0
IsCopied c = (c ≢ b'%') × (c ≢ b'+')

pub query_unescape-plain : (s : Bytes) → All IsCopied s → query_unescape s ≡ some s
unfolding query_unescape
query_unescape-plain [] h = refl
query_unescape-plain (c ∷ s) ((p, q), h) = ground (arith, query_unescape-plain s h)

-- an ASCII character that is no capital letter
abbrev pub IsLower : ℕ → Type 0
IsLower c = (c < 128) × (within b'A' b'Z' c ≡ false)

-- What is used of `strings.ToLower`: it leaves ASCII text without capital letters alone.
abbrev pub IsLowering : (Bytes → Bytes) → Type 0
IsLowering to_lower = (s : Bytes) → All IsLower s → to_lower s ≡ s

pub has_prefix-append : (p s : Bytes) → has_prefix (p ++ s) p ≡ true
unfolding has_prefix
has_prefix-append [] s = refl
has_prefix-append (c ∷ p) s = ground (arith, has_prefix-append p s)

-- whether a text is ASCII without capital letters
abbrev pub are_lower : Bytes → Bool
are_lower [] = true
are_lower (c ∷ s) = ltb c 128 && not (within 65 90 c) && are_lower s

pub are_lower-IsLower : (s : Bytes) → are_lower s ≡ true → All IsLower s
are_lower-IsLower [] h = tt
are_lower-IsLower (c ∷ s) h = ((ground arith, ground arith), are_lower-IsLower s (ground arith))
