-- ===== src/BaggageSetter.antt =====
-- baggage_setter.go, which writes baggage items under restrictions, and the restrictions:
-- internal/baggage/restriction_manager.go and internal/baggage/remote/restriction_manager.go.
pub mod Truncation
use jaeger_client_go.Base.{
  ℕ, zero, suc, ◌+◌, ◌-◌, ltb, not, Bool, true, false, if◌then◌else◌, List, [], ◌∷◌, ◌++◌, Option,
  none, some, Bytes, codes, bytes_eq, Map, lookup, insert, length, take,
}
use jaeger_client_go.Base.Integers.{ℤ, pos, negsuc}
use jaeger_client_go.SpanContext.{with_baggage_item, context_is_sampled}
use jaeger_client_go.Span.{Span, World', Components, Options, log_fields}
use jaeger_client_go.Span.Logs.{LogApi}

pub record Restriction : Type 0 where
  pub key_allowed : Bool
  pub max_value_length : ℤ

-- The manager that allows all keys; 0 stands for the default length.
unfoldable pub default_get_restriction : ℤ → Bytes → Restriction
default_get_restriction (pos zero) key = record { key_allowed = true; max_value_length = pos 2048 }
default_get_restriction (pos (suc n)) key = record {
  key_allowed = true;
  max_value_length = pos (suc n);
}
default_get_restriction (negsuc n) key = record { key_allowed = true; max_value_length = negsuc n }

-- The manager that has its restrictions from the agent.
pub record RestrictionManager : Type 0 where
  pub restrictions : Map Restriction
  pub deny_baggage_on_initialization_failure : Bool
  pub initialized : Bool

abbrev pub invalid_restriction : Restriction
invalid_restriction = record { key_allowed = false; max_value_length = pos 0 }

abbrev pub valid_restriction : Restriction
valid_restriction = record { key_allowed = true; max_value_length = pos 2048 }

unfoldable pub get_restriction : RestrictionManager → Bytes → Restriction
get_restriction m key =
    if not m.initialized
    then if m.deny_baggage_on_initialization_failure then invalid_restriction else valid_restriction
    else elim (lookup key m.restrictions) [ none ↦ invalid_restriction | some r ↦ r ]

unfoldable pub parse_restrictions : List (Bytes × ℤ) → Map Restriction → Map Restriction
parse_restrictions [] setters = setters
parse_restrictions ((key, max_value_length) ∷ rest) setters =
    parse_restrictions rest
      (insert key (record { key_allowed = true; max_value_length = max_value_length }) setters)

-- `updateRestrictions` on the agent's answer; it fails if there is none.
unfoldable pub update_restrictions :
    Option (List (Bytes × ℤ)) → RestrictionManager → RestrictionManager × Bool
update_restrictions none m = (m, false)
update_restrictions (some restrictions) m =
    (record m { restrictions = parse_restrictions restrictions []; initialized = true }, true)

-- The counters of baggage writes.
pub record BaggageMetrics : Type 0 where
  pub baggage_update_success : ℕ
  pub baggage_update_failure : ℕ
  pub baggage_truncate : ℕ

module _ {Num : Type 0} (api : LogApi) (C : Components Num api.Field) (options : Options) where
  unfoldable pub baggage_fields : Bytes → Bytes → Bytes → Bool → Bool → List api.Field
  baggage_fields key value prev_item truncated valid =
      (api.string (codes "event") (codes "baggage")
        ∷ api.string (codes "key") key
        ∷ api.string (codes "value") value
        ∷ [])
      ++ ((if bytes_eq prev_item [] then [] else api.string (codes "override") (codes "true") ∷ [])
          ++ ((if truncated then api.string (codes "truncated") (codes "true") ∷ [] else [])
              ++ (if valid then [] else api.string (codes "invalid") (codes "true") ∷ [])))

  -- The write of a value to a key that is allowed, with a limit on the length.
  unfoldable pub store_item :
      ℕ
      → Span Num api.Field
      → Bytes
      → Bytes
      → ℕ
      → World' C
      → BaggageMetrics
      → Span Num api.Field × BaggageMetrics
  store_item limit s key value now w metrics =
      let truncated = ltb limit (length value) in
      let kept = if truncated then take limit value else value in
      let prev_item : Bytes = elim (lookup key s.context.baggage) [ none ↦ [] | some v ↦ v ] in
      let logged =
        log_fields C options s (baggage_fields key kept prev_item truncated true) now w in
      (
        record logged { context = with_baggage_item logged.context key kept },
        record metrics {
          baggage_truncate =
              if truncated then metrics.baggage_truncate + 1 else metrics.baggage_truncate;
          baggage_update_success = metrics.baggage_update_success + 1;
        },
      )

  -- `setBaggage`, with the restriction for the key. A limit below 0 is exceeded by every value, and
  -- then slicing the value panics: `none`.
  unfoldable pub set_baggage :
      Restriction
      → Span Num api.Field
      → Bytes
      → Bytes
      → ℕ
      → World' C
      → BaggageMetrics
      → Option (Span Num api.Field × BaggageMetrics)
  set_baggage restriction s key value now w metrics =
      if not restriction.key_allowed
      then some (
        log_fields C options s (baggage_fields key value [] false false) now w,
        record metrics { baggage_update_failure = metrics.baggage_update_failure + 1 },
      )
      else elim restriction.max_value_length [
        | negsuc n ↦ none
        | pos limit ↦ some (store_item limit s key value now w metrics)
      ]
