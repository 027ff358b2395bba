-- ===== src/BaggageSetter/Truncation.antt =====
-- What a write to the baggage of a span leaves in it.
use jaeger_client_go.Base.{
  ℕ, zero, suc, ◌+◌, ◌≤◌, ltb, true, if◌then◌else◌, List, [], ◌∷◌, none, some, Bytes, bytes_eq,
  lookup, length, take, ◌≡◌, refl, sym, ap, Bool-cases, inl, inr, arith,
}
use jaeger_client_go.Base.Integers.{pos}
use jaeger_client_go.SpanContext.Baggage.{lookup-with_baggage_item}
use jaeger_client_go.Span.{Span, World', Components, Options, log_fields}
use jaeger_client_go.Span.Logs.{LogApi}
use jaeger_client_go.BaggageSetter.{Restriction, BaggageMetrics, store_item, set_baggage}

take_all : {A : Type 0} (n : ℕ) (xs : List A) → length xs ≤ n → take n xs ≡ xs
take_all zero [] h = refl
take_all zero (x ∷ xs) h = absurd (omega arith)
take_all (suc n) [] h = refl
take_all (suc n) (x ∷ xs) h = ap (λ r. x ∷ r) (take_all n xs (omega arith))

module _ {Num : Type 0} (api : LogApi) (C : Components Num api.Field) (options : Options) where
  kept_lem :
      (limit : ℕ) (value : Bytes)
      → (if ltb limit (length value) then take limit value else value) ≡ take limit value
  kept_lem limit value = elim (Bool-cases (ltb limit (length value))) [
    | inl over ↦ rw over refl
    | inr within ↦ rw within (sym (take_all limit value (ground arith)))
  ]

  log_fields-context :
      (s : Span Num api.Field) (fields : List api.Field) (now : ℕ) (w : World' C)
      → (log_fields C options s fields now w).context ≡ s.context
  unfolding log_fields
  log_fields-context s fields now w = ground arith

  store_item_lem :
      (limit : ℕ) (s : Span Num api.Field) (key value j : Bytes) (now : ℕ) (w : World' C)
      (metrics : BaggageMetrics)
      → (lookup j (store_item api C options limit s key value now w metrics).0.context.baggage ≡ (
          if bytes_eq key j
          then (if bytes_eq (take limit value) [] then none else some (take limit value))
          else lookup j s.context.baggage))
        × ((store_item api C options limit s key value now w metrics).1.baggage_update_success
            ≡ metrics.baggage_update_success + 1)
        × ((store_item api C options limit s key value now w metrics).1.baggage_update_failure
            ≡ metrics.baggage_update_failure)
  unfolding store_item
  store_item_lem limit s key value j now w metrics = (
    rw (kept_lem limit value, log_fields-context s)
        ((lookup-with_baggage_item s.context key (take limit value) j).0),
    refl,
    refl,
  )

  -- A write to a key that is allowed, with a limit that is not negative, is counted as one success.
  -- Then a lookup of the key finds the first bytes of the value up to the limit, or nothing if
  -- these are empty; a lookup of any other key finds what it found before.
  pub set_baggage_lem :
      (restriction : Restriction) (limit : ℕ) (s : Span Num api.Field) (key value j : Bytes)
      (now : ℕ) (w : World' C) (metrics : BaggageMetrics)
      → restriction.key_allowed ≡ true
      → restriction.max_value_length ≡ pos limit
      → (s' : Span Num api.Field) × (metrics' : BaggageMetrics) × (set_baggage api C options
            restriction s key value now w metrics
          ≡ some (s', metrics'))
        × (lookup j s'.context.baggage ≡ (
            if bytes_eq key j
            then (if bytes_eq (take limit value) [] then none else some (take limit value))
            else lookup j s.context.baggage))
        × (metrics'.baggage_update_success ≡ metrics.baggage_update_success + 1)
        × (metrics'.baggage_update_failure ≡ metrics.baggage_update_failure)
  unfolding set_baggage
  set_baggage_lem restriction limit s key value j now w metrics allowed bounded =
      let r = store_item api C options limit s key value now w metrics in
      let (found, success, failure) = store_item_lem limit s key value j now w metrics in
      (r.0, r.1, rw (allowed, bounded) refl, found, success, failure)
