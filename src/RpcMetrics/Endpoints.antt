-- ===== src/RpcMetrics/Endpoints.antt =====
-- rpcmetrics/endpoints.go: a cache of the safe names of endpoints, shared by the threads that
-- finish spans.
pub mod Threads
use jaeger_client_go.Base.{
  ℕ, zero, suc, leb, Bool, true, false, if◌then◌else◌, List, [], ◌∷◌, Option, none, some, Bytes,
  Map, lookup, insert, length,
}

pub record NormalizedEndpoints : Type 0 where
  pub names : Map Bytes
  pub max_size : ℕ

unfoldable pub new_normalized_endpoints : ℕ → NormalizedEndpoints
new_normalized_endpoints max_size = record { names = []; max_size = max_size }

-- What `normalize` read of the cache under the read lock: the answer, or that it goes on to
-- `normalizeWithLock`.
unfoldable pub read_names : NormalizedEndpoints → Bytes → Option Bytes
read_names n name = elim (lookup name n.names) [
  | some norm ↦ some norm
  | none ↦ if leb n.max_size (length n.names) then some [] else none
]

-- The normalizer is an interface.
module _ (normalizer : Bytes → Bytes) where
  unfoldable pub normalize_with_lock : NormalizedEndpoints → Bytes → NormalizedEndpoints × Bytes
  normalize_with_lock n name =
      if leb n.max_size (length n.names)
      then (n, [])
      else (record n { names = insert name (normalizer name) n.names }, normalizer name)

  -- `normalize` of a thread that no other one interrupts
  unfoldable pub normalize : NormalizedEndpoints → Bytes → NormalizedEndpoints × Bytes
  normalize n name = elim (read_names n name) [
    | some norm ↦ (n, norm)
    | none ↦ normalize_with_lock n name
  ]
