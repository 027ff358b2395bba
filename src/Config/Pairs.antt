-- ===== src/Config/Pairs.antt =====
-- parseTags of config/config_env.go.
use jaeger_client_go.Base.{
  ℕ, ◌-◌, ◌==◌, ◌&&◌, not, Bool, false, if◌then◌else◌, List, [], ◌∷◌, Option, none, some, Bytes,
  codes, bytes_eq, length, take, drop,
}
use jaeger_client_go.SpanContext.Hex.{split}
use jaeger_client_go.Propagation.Escape.{trim_space, has_prefix}

-- `strings.SplitN(s, sep, 2)`: what is before the first separator, and what is behind it if there
-- is one.
unfoldable pub split_once : ℕ → Bytes → Bytes × Option Bytes
split_once sep [] = ([], none)
split_once sep (c ∷ s) =
    let rest = split_once sep s in if c == sep then ([], some s) else (c ∷ rest.0, rest.1)

-- `strings.HasSuffix(s, "}")`
unfoldable pub ends_with_brace : Bytes → Bool
ends_with_brace [] = false
ends_with_brace (c ∷ []) = c == b'}'
ends_with_brace (c ∷ d ∷ s) = ends_with_brace (d ∷ s)

-- `${env:default}`; `none` is an index out of range.
unfoldable pub expand_value : (Bytes → Bytes) → Bytes → Option Bytes
expand_value getenv v =
    let inner = split_once b':' (take (length v - 3) (drop 2 v)) in
    if has_prefix v (codes "${") && ends_with_brace v
    then elim (inner.1) [
      | none ↦ none
      | some d ↦
          let found = getenv (inner.0) in
          some (if bytes_eq found [] && not (bytes_eq d []) then d else found)
    ]
    else some v

unfoldable pub parse_tag : (Bytes → Bytes) → Bytes → Option (Bytes × Bytes)
parse_tag getenv p =
    let kv = split_once b'=' p in
    elim (kv.1) [
      | none ↦ none
      | some v ↦ elim (expand_value getenv (trim_space v)) [
        | none ↦ none
        | some value ↦ some (trim_space (kv.0), value)
      ]
    ]

-- the loop of `parseTags`; `none` is a panic
unfoldable pub parse_pairs : (Bytes → Bytes) → List Bytes → Option (List (Bytes × Bytes))
parse_pairs getenv [] = some []
parse_pairs getenv (p ∷ pairs) = elim (parse_tag getenv p) [
  | none ↦ none
  | some tag ↦ elim (parse_pairs getenv pairs) [ none ↦ none | some tags ↦ some (tag ∷ tags) ]
]

unfoldable pub parse_tags : (Bytes → Bytes) → Bytes → Option (List (Bytes × Bytes))
parse_tags getenv s_tags = parse_pairs getenv (split s_tags b',')
