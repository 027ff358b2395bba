-- ===== src/RpcMetrics/Endpoints/Threads.antt =====
-- The cache under any interleaving of threads.
use jaeger_client_go.Base.{
  ℕ, ◌≤◌, ◌≡◌, refl, inl, inr, [], Option, some, Bytes, lookup, length, lookup-insert,
  length-insert, bytes_eq_iff, ◌⊎◌, Option-cases, arith,
}
use jaeger_client_go.RpcMetrics.Endpoints.{
  NormalizedEndpoints, new_normalized_endpoints, read_names, normalize_with_lock,
}

module _ (normalizer : Bytes → Bytes) where
  -- One critical section of some thread: `read` under the read lock, `write` in
  -- `normalizeWithLock`, which runs at any later time. The answer is for the name.
  pub data Step : NormalizedEndpoints → Bytes → Option Bytes → NormalizedEndpoints → Type 0 where
    read : (n : NormalizedEndpoints) (name : Bytes) → Step n name (read_names n name) n
    write :
        (n : NormalizedEndpoints) (name : Bytes)
        → Step n name
            (some (normalize_with_lock normalizer n name).1)
            (normalize_with_lock normalizer n name).0

  -- a cache that the threads can reach from a new one
  pub data Reachable (max_size : ℕ) : NormalizedEndpoints → Type 0 where
    start : Reachable max_size (new_normalized_endpoints max_size)
    next :
        {n : NormalizedEndpoints} {name : Bytes} {answer : Option Bytes} {n' : NormalizedEndpoints}
        → Reachable max_size n
        → Step n name answer n'
        → Reachable max_size n'

  -- The cache holds only what the normalizer gives, and no more names than its size.
  abbrev pub IsCache : ℕ → NormalizedEndpoints → Type 0
  IsCache max_size n =
      (n.max_size ≡ max_size)
      × (length n.names ≤ max_size)
      × ((name norm : Bytes) → lookup name n.names ≡ some norm → norm ≡ normalizer name)

  new_normalized_endpoints-IsCache :
      (max_size : ℕ) → IsCache max_size (new_normalized_endpoints max_size)
  unfolding new_normalized_endpoints lookup
  new_normalized_endpoints-IsCache max_size = (refl, omega arith, λ name norm h. absurd (cc))

  normalize_with_lock-IsCache :
      (max_size : ℕ) (n : NormalizedEndpoints) (name : Bytes)
      → IsCache max_size n
      → IsCache max_size (normalize_with_lock normalizer n name).0
  unfolding normalize_with_lock
  normalize_with_lock-IsCache max_size n name (m, l, h) = (
    ground arith,
    ground (arith, length-insert name (normalizer name) n.names),
    λ name' norm e. ground (
      arith,
      e,
      lookup-insert name name' (normalizer name) n.names,
      bytes_eq_iff name name',
      h name' norm,
    ),
  )

  Step-IsCache :
      {max_size : ℕ} {n : NormalizedEndpoints} {name : Bytes} {answer : Option Bytes}
      {n' : NormalizedEndpoints}
      → IsCache max_size n
      → Step n name answer n'
      → IsCache max_size n'
  Step-IsCache c (read n name) = c
  Step-IsCache {max_size = max_size} c (write n name) =
      normalize_with_lock-IsCache max_size n name c

  Reachable-IsCache :
      {max_size : ℕ} {n : NormalizedEndpoints} → Reachable max_size n → IsCache max_size n
  Reachable-IsCache {max_size = max_size} start = new_normalized_endpoints-IsCache max_size
  Reachable-IsCache (next r s) = Step-IsCache (Reachable-IsCache r) s

  -- What an answer can be.
  Step-answer :
      {max_size : ℕ} {n : NormalizedEndpoints} {name : Bytes} {answer : Option Bytes}
      {n' : NormalizedEndpoints}
      → IsCache max_size n
      → Step n name answer n'
      → (a : Bytes) → answer ≡ some a
      → (a ≡ normalizer name) ⊎ ((a ≡ []) × (max_size ≤ length n.names))
  unfolding read_names normalize_with_lock
  Step-answer c (read n name) a e = elim (Option-cases (lookup name n.names)) [
    | inl q ↦ ground (arith, q, c)
    | inr (norm, q) ↦ inl (ground (arith, q, c.2 name norm q))
  ]
  Step-answer c (write n name) a e = ground (arith, c)

  -- Whatever the threads did before, a critical section leaves at most `maxSize` names in the
  -- cache, and it answers the normalized form of the name that it was given, or "" when the cache
  -- was full.
  pub Reachable-answers :
      {max_size : ℕ} {n : NormalizedEndpoints} {name : Bytes} {a : Bytes} {n' : NormalizedEndpoints}
      → Reachable max_size n
      → Step n name (some a) n'
      → (length n'.names ≤ max_size)
        × ((a ≡ normalizer name) ⊎ ((a ≡ []) × (max_size ≤ length n.names)))
  Reachable-answers {a = a} r s =
      let c = Reachable-IsCache r in ((Step-IsCache c s).1, Step-answer c s a refl)
