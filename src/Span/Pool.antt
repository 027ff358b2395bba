-- ===== src/Span/Pool.antt =====
-- The references on a span and its return to the pool: Retain and Release of span.go, and
-- span_allocator.go.
use jaeger_client_go.Base.{
  ℕ, zero, suc, ◌+◌, ◌-◌, ◌==◌, ◌≡◌, false, if◌then◌else◌, List, ◌∷◌, Option, none, some, arith,
}
use jaeger_client_go.Span.{Span, reset}

-- The spans of a pool, latest first; `none` is the allocator that does not reuse spans.
abbrev pub Pool : Type 0 → Type 0 → Type 0
Pool Num Field = Option (List (Span Num Field))

module _ {Num Field : Type 0} where
  unfoldable pub put : Pool Num Field → Span Num Field → Pool Num Field
  put none s = none
  put (some pool) s = some (reset s ∷ pool)

  unfoldable pub retain : Span Num Field → Span Num Field
  retain s = record s { reference_counter = s.reference_counter + 1 }

  -- the span that is put, which only the pool resets
  unfoldable pub after_put : Pool Num Field → Span Num Field → Span Num Field
  after_put none s = s
  after_put (some pool) s = reset s

  -- The pool and the span after `Release`. A counter that falls below 0 stays at 0 here.
  unfoldable pub release : Pool Num Field → Span Num Field → Pool Num Field × Span Num Field
  release pool s =
      if s.reference_counter == 0
      then (put pool s, after_put pool s)
      else (pool, record s { reference_counter = s.reference_counter - 1 })

  -- holders that release their references one after the other
  unfoldable pub release_all : ℕ → Pool Num Field → Span Num Field → Pool Num Field × Span Num Field
  release_all zero pool s = (pool, s)
  release_all (suc n) pool s = let r = release pool s in release_all n (r.0) (r.1)

  -- With `n` references beside the first, `n` releases keep the span out of the pool, and as it is
  -- but for the counter.
  release_all_lem :
      (n : ℕ) (pool : Pool Num Field) (s : Span Num Field)
      → s.reference_counter ≡ n
      → release_all n pool s ≡ (pool, record s { reference_counter = 0 })
  unfolding release_all release
  release_all_lem zero pool s h = λ i. (pool, record s { reference_counter = h i })
  release_all_lem (suc n) pool s h =
      let e : s.reference_counter - 1 ≡ n = omega arith in
      let busy : (s.reference_counter == 0) ≡ false = ground (arith, h) in
      rw busy (release_all_lem n pool (record s { reference_counter = s.reference_counter - 1 }) e)
