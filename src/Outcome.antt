-- ===== src/Outcome.antt =====
-- The results of Go functions that return an error, and of those that may panic.
use jaeger_client_go.Base.{Bool, true, false}

-- the errors of span_context.go and propagation.go; `parse_uint` is any error of strconv
pub data Error : Type 0 where
  empty_tracer_state_string malformed_tracer_state_string : Error
  trace_id_too_long span_id_too_long parse_uint : Error
  invalid_carrier invalid_span_context unsupported_format : Error
  span_context_corrupted span_context_not_found carrier_failed : Error

pub data Outcome {ℓ} (A : Type ℓ) : Type ℓ where
  ok : A → Outcome A
  err : Error → Outcome A
  panic : Outcome A

infixl 5 ◌>>=◌
abbrev pub ◌>>=◌ {ℓ κ} : {A : Type ℓ} {B : Type κ} → Outcome A → (A → Outcome B) → Outcome B
ok a >>= f = f a
err e >>= f = err e
panic >>= f = panic

abbrev pub guard : Bool → Error → Outcome (Unit {0})
guard b e = elim b [ true ↦ ok tt | false ↦ err e ]

infixl 5 ◌>>◌
abbrev pub ◌>>◌ {ℓ} : {B : Type ℓ} → Outcome (Unit {0}) → Outcome B → Outcome B
m >> k = m >>= λ _. k
