-- ===== src/Conversion/Ip/Octets.antt =====
-- Addresses read from text are those that are packed from their bytes.
use jaeger_client_go.Base.{
  ℕ, ◌+◌, ◌*◌, ◌%◌, ◌^◌, ◌<◌, bit_or, ◌≡◌, refl, ap, ◌∙◌, false, List, [], ◌∷◌, ◌++◌, Option, some,
  Bytes, codes, bytes_eq, bytes_eq_iff, length, Bool-cases, inl, inr, arith,
}
use jaeger_client_go.Base.Bits.{bit_or_shifted}
use jaeger_client_go.Base.Integers.{ℤ, pos}
use jaeger_client_go.SpanContext.Hex.{split}
use jaeger_client_go.SpanContext.Hex.RoundTrip.{Lacks, split_from-Lacks, split_from_last}
use jaeger_client_go.Conversion.Ip.{
  ip_ok, to_uint32, shift_in, parse_octets, parse_ip_to_uint32, pack_ip_as_uint32,
}

shift_in_lem : (x b : ℕ) → x < 2 ^ 24 → b < 2 ^ 8 → shift_in x b ≡ x * 2 ^ 8 + b
unfolding shift_in
shift_in_lem x b hx hb =
    let small : (x * 2 ^ 8) % 2 ^ 32 ≡ x * 2 ^ 8 = omega arith in
    ap (λ (w : ℕ). bit_or w b) small ∙ bit_or_shifted 8 x b hb

-- an octet below 256 as text that the library reads
abbrev pub Spells : (Bytes → Option ℤ) → Bytes → ℕ → Type 0
Spells atoi text octet = (atoi text ≡ some (pos octet)) × (octet < 256) × Lacks b'.' text

module _ (atoi : Bytes → Option ℤ) where
  parse_octets-next :
      (x n : ℕ) (text : Bytes) (rest : List Bytes)
      → Spells atoi text n
      → x < 2 ^ 24
      → parse_octets atoi x (text ∷ rest) ≡ parse_octets atoi (x * 2 ^ 8 + n) rest
  unfolding parse_octets to_uint32
  parse_octets-next x n text rest (e, small, dots) h =
      let word : n % 2 ^ 32 ≡ n = omega arith in
      rw (e, parse_octets)
        (ap (λ (w : ℕ). parse_octets atoi w rest) (ap (shift_in x) word ∙ shift_in_lem x n h small))

-- four texts with dots between them
abbrev pub dotted : Bytes → Bytes → Bytes → Bytes → Bytes
dotted p q r s = p ++ b'.' ∷ (q ++ b'.' ∷ (r ++ b'.' ∷ s))

split-dotted :
    (p q r s : Bytes)
    → Lacks b'.' p
    → Lacks b'.' q
    → Lacks b'.' r
    → Lacks b'.' s
    → split (dotted p q r s) b'.' ≡ p ∷ q ∷ r ∷ s ∷ []
unfolding split
split-dotted p q r s hp hq hr hs =
    split_from-Lacks b'.' p [] (q ++ b'.' ∷ (r ++ b'.' ∷ s)) hp
    ∙ ap (λ t. p ∷ t)
        (split_from-Lacks b'.' q [] (r ++ b'.' ∷ s) hq
          ∙ ap (λ t. q ∷ t)
              (split_from-Lacks b'.' r [] s hr ∙ ap (λ t. r ∷ t) (split_from_last b'.' s [] hs)))

-- Texts with different numbers of parts are different.
bytes_eq_parts :
    (s t : Bytes) → length (split s b'.') ≡ 4 → length (split t b'.') ≡ 1 → bytes_eq s t ≡ false
bytes_eq_parts s t hs ht = elim (Bool-cases (bytes_eq s t)) [
  | inl e ↦ absurd (omega (arith, hs, ht, ap (λ x. length (split x b'.')) ((bytes_eq_iff s t).0 e)))
  | inr e ↦ e
]

length-split-localhost : length (split (codes "localhost") b'.') ≡ 1
unfolding split
length-split-localhost = refl

length-split-nil : length (split [] b'.') ≡ 1
unfolding split
length-split-nil = refl

module _ (atoi : Bytes → Option ℤ) where
  parse_four :
      (p q r s : Bytes) (a b c d : ℕ)
      → Spells atoi p a
      → Spells atoi q b
      → Spells atoi r c
      → Spells atoi s d
      → parse_octets atoi 0 (p ∷ q ∷ r ∷ s ∷ [])
        ≡ ip_ok (pack_ip_as_uint32 (some (a ∷ b ∷ c ∷ d ∷ [])))
  unfolding pack_ip_as_uint32 parse_octets
  parse_four p q r s a b c d hp hq hr hs =
      parse_octets-next atoi 0 a p (q ∷ r ∷ s ∷ []) hp (omega arith)
      ∙ (parse_octets-next atoi (0 * 2 ^ 8 + a) b q (r ∷ s ∷ []) hq (omega (arith, hp.1))
          ∙ (parse_octets-next atoi ((0 * 2 ^ 8 + a) * 2 ^ 8 + b) c r (s ∷ []) hr
                (omega (arith, hp.1, hq.1))
              ∙ (parse_octets-next atoi (((0 * 2 ^ 8 + a) * 2 ^ 8 + b) * 2 ^ 8 + c) d s [] hs
                    (omega (arith, hp.1, hq.1, hr.1))
                  ∙ ap ip_ok (omega arith))))

  -- An address in dotted form, of four texts without dots that the library reads as numbers below
  -- 256, is read as the number into which these four bytes are packed.
  pub parse_ip_to_uint32-dotted :
      (p q r s : Bytes) (a b c d : ℕ)
      → Spells atoi p a
      → Spells atoi q b
      → Spells atoi r c
      → Spells atoi s d
      → parse_ip_to_uint32 atoi (dotted p q r s)
        ≡ ip_ok (pack_ip_as_uint32 (some (a ∷ b ∷ c ∷ d ∷ [])))
  unfolding parse_ip_to_uint32
  parse_ip_to_uint32-dotted p q r s a b c d hp hq hr hs =
      let parts = split-dotted p q r s (hp.2) (hq.2) (hr.2) (hs.2) in
      let four : length (split (dotted p q r s) b'.') ≡ 4 = ap length parts ∙ refl in
      rw
        (
          bytes_eq_parts (dotted p q r s) [] four length-split-nil,
          bytes_eq_parts (dotted p q r s) (codes "localhost") four length-split-localhost,
          parts,
        )
        (parse_four p q r s a b c d hp hq hr hs)
