-- ===== src/Propagation/Escape.antt =====
-- The standard library's text functions that the header propagator uses, on bytes:
-- `url.QueryEscape`, `url.QueryUnescape`, `strings.TrimSpace` and `strings.HasPrefix`.
pub mod RoundTrip
use jaeger_client_go.Base.{
  ℕ, ◌+◌, ◌-◌, ◌*◌, ◌/◌, ◌%◌, ◌==◌, leb, ltb, ◌&&◌, ◌||◌, Bool, true, false, if◌then◌else◌, List,
  [], ◌∷◌, ◌++◌, Option, none, some, Bytes, length,
}

abbrev pub within : ℕ → ℕ → ℕ → Bool
within lo hi c = leb lo c && leb c hi

-- the bytes that stand for themselves in a query component
unfoldable pub is_unreserved : ℕ → Bool
is_unreserved c =
    within b'a' b'z' c
    || within b'A' b'Z' c
    || within b'0' b'9' c
    || c == b'-'
    || c == b'_'
    || c == b'.'
    || c == b'~'

-- a digit below 16, in upper case
unfoldable pub upper_hex : ℕ → ℕ
upper_hex d = if ltb d 10 then b'0' + d else b'A' + (d - 10)

unfoldable pub unhex : ℕ → Option ℕ
unhex c =
    if within b'0' b'9' c
    then some (c - b'0')
    else if within b'a' b'f' c
    then some (c - b'a' + 10)
    else if within b'A' b'F' c
    then some (c - b'A' + 10)
    else none

unfoldable pub escape_byte : ℕ → Bytes
unfolding is_unreserved upper_hex
escape_byte c =
    if is_unreserved c
    then c ∷ []
    else if c == b' '
    then b'+' ∷ []
    else b'%' ∷ upper_hex (c / 16) ∷ upper_hex (c % 16) ∷ []

unfoldable pub query_escape : Bytes → Bytes
unfolding escape_byte
query_escape [] = []
query_escape (c ∷ s) = escape_byte c ++ query_escape s

-- What the decoder has read of an escape: nothing, the percent sign, or a digit too.
pub data Pending : Type 0 where
  plain percent : Pending
  digit : ℕ → Pending

abbrev pub prepend : ℕ → Option Bytes → Option Bytes
prepend c r = elim r [ none ↦ none | some s ↦ some (c ∷ s) ]

abbrev unplus : ℕ → ℕ
unplus c = if c == b'+' then b' ' else c

-- A percent sign with no two digits behind it is an error.
unfoldable pub unescape_from : Pending → Bytes → Option Bytes
unfolding unhex
unescape_from plain [] = some []
unescape_from percent [] = none
unescape_from (digit d) [] = none
unescape_from plain (c ∷ s) =
    let coded = unescape_from percent s in
    let copied = prepend (unplus c) (unescape_from plain s) in if c == b'%' then coded else copied
unescape_from percent (c ∷ s) = elim (unhex c) [ none ↦ none | some d ↦ unescape_from (digit d) s ]
unescape_from (digit d) (c ∷ s) = elim (unhex c) [
  | none ↦ none
  | some e ↦ prepend (d * 16 + e) (unescape_from plain s)
]

unfoldable pub query_unescape : Bytes → Option Bytes
unfolding unescape_from
query_unescape s = unescape_from plain s

unfoldable pub is_space : ℕ → Bool
is_space c = c == b' ' || within 9 13 c

-- The bytes of the spaces of Unicode beyond ASCII, in UTF-8: U+0085 and U+00A0; U+1680, U+2000 to
-- U+200A, U+2028, U+2029, U+202F, U+205F and U+3000.
unfoldable pub is_space2 : ℕ → ℕ → Bool
is_space2 c d = c == 194 && (d == 133 || d == 160)

unfoldable pub is_space3 : ℕ → ℕ → ℕ → Bool
is_space3 c d e =
    (c == 225 && d == 154 && e == 128)
    || (c == 226 && d == 128 && (within 128 138 e || e == 168 || e == 169 || e == 175))
    || (c == 226 && d == 129 && e == 159)
    || (c == 227 && d == 128 && e == 128)

-- the length of the space that a text begins with, or 0
unfoldable pub space_length : Bytes → ℕ
unfolding is_space is_space2 is_space3
space_length [] = 0
space_length (c ∷ []) = if is_space c then 1 else 0
space_length (c ∷ d ∷ []) = if is_space c then 1 else if is_space2 c d then 2 else 0
space_length (c ∷ d ∷ e ∷ s) =
    if is_space c then 1 else if is_space2 c d then 2 else if is_space3 c d e then 3 else 0

-- Bytes of a space that are still to be left out come first.
unfoldable pub trim_left : ℕ → Bytes → Bytes
unfolding space_length
trim_left skip [] = []
trim_left skip (c ∷ s) =
    let spaces = if skip == 0 then space_length (c ∷ s) else skip in
    let rest = trim_left (spaces - 1) s in if spaces == 0 then c ∷ s else rest

unfoldable pub trim_right : Bytes → Bytes
unfolding space_length
trim_right [] = []
trim_right (c ∷ s) =
    let rest = trim_right s in if space_length (c ∷ rest) == length (c ∷ rest) then [] else c ∷ rest

unfoldable pub trim_space : Bytes → Bytes
unfolding trim_left trim_right
trim_space s = trim_right (trim_left 0 s)

unfoldable pub has_prefix : Bytes → Bytes → Bool
has_prefix s [] = true
has_prefix [] (d ∷ p) = false
has_prefix (c ∷ s) (d ∷ p) = c == d && has_prefix s p
