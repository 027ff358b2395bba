-- ===== src/Sampler/Operations/Update.antt =====
-- What an update from the backend keeps.
use jaeger_client_go.Base.{
  Bool, true, false, ◌||◌, List, [], ◌∷◌, Option, none, some, Bytes, bytes_eq,
}
use jaeger_client_go.Base.Float.{Float}
use jaeger_client_go.Sampler.Operations.{OperationStrategy}

abbrev pub is_some : {A : Type 0} → Option A → Bool
is_some none = false
is_some (some a) = true

-- whether the backend sent a strategy for an operation
abbrev pub listed : {Num : Type 0} → Bytes → List (OperationStrategy Num) → Bool
listed op [] = false
listed op (strategy ∷ rest) = bytes_eq strategy.operation op || listed op rest
