-- ===== src/RpcMetrics/Normalizer.antt =====
-- rpcmetrics/normalizer.go: endpoint names over a safe set of characters.
pub mod Safe
use jaeger_client_go.Base.{
  ℕ, zero, suc, ◌==◌, leb, ◌&&◌, Bool, true, false, if◌then◌else◌, List, [], ◌∷◌, ◌++◌, Option,
  none, some, Bytes, length, take, set,
}

-- `SafeCharacterSet` with its two implementations
pub data SafeCharacterSet : Type 0 where
  range : ℕ → ℕ → SafeCharacterSet
  char : ℕ → SafeCharacterSet

unfoldable pub is_safe : SafeCharacterSet → ℕ → Bool
is_safe (range from to) c = leb from c && leb c to
is_safe (char val) c = c == val

pub record SimpleNameNormalizer : Type 0 where
  pub safe_sets : List SafeCharacterSet
  pub replacement : ℕ

abbrev pub default_name_normalizer : SimpleNameNormalizer
default_name_normalizer = record {
  safe_sets =
      range b'a' b'z'
      ∷ range b'A' b'Z'
      ∷ range b'0' b'9'
      ∷ char b'-'
      ∷ char b'_'
      ∷ char b'/'
      ∷ char b'.'
      ∷ [];
  replacement = b'-';
}

-- the loop of `safeByte`
unfoldable pub any_safe : List SafeCharacterSet → ℕ → Bool
any_safe [] b = false
any_safe (s ∷ sets) b = if is_safe s b then true else any_safe sets b

unfoldable pub safe_byte : SimpleNameNormalizer → ℕ → Bool
safe_byte n b = any_safe n.safe_sets b

-- `make([]byte, n)`
unfoldable pub make : ℕ → Bytes
make zero = []
make (suc n) = 0 ∷ make n

-- `copy(dst[0:i], src[0:i])`
unfoldable pub copy_upto : ℕ → Bytes → Bytes → Bytes
copy_upto zero dst src = dst
copy_upto (suc i) [] src = []
copy_upto (suc i) (d ∷ dst) [] = d ∷ dst
copy_upto (suc i) (d ∷ dst) (b ∷ src) = b ∷ copy_upto i dst src

-- One round of the loop of `Normalize`: `ret_me` is the result, once it differs from the name.
unfoldable pub normalize_byte : SimpleNameNormalizer → Bytes → Option Bytes → ℕ → ℕ → Option Bytes
normalize_byte n name ret_me i b =
    if safe_byte n b then elim ret_me [ none ↦ none | some r ↦ some (set r i b) ] else elim ret_me [
      | none ↦ some (set (copy_upto i (make (length name)) name) i n.replacement)
      | some r ↦ some (set r i n.replacement)
    ]

unfoldable pub normalize_loop :
    SimpleNameNormalizer → Bytes → Option Bytes → ℕ → Bytes → Option Bytes
normalize_loop n name ret_me i [] = ret_me
normalize_loop n name ret_me i (b ∷ rest) =
    normalize_loop n name (normalize_byte n name ret_me i b) (suc i) rest

-- `Normalize`
unfoldable pub normalize : SimpleNameNormalizer → Bytes → Bytes
normalize n name = elim (normalize_loop n name none 0 name) [ none ↦ name | some r ↦ r ]
