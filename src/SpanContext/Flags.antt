-- ===== src/SpanContext/Flags.antt =====
-- `samplingState` of span_context.go: the flags that travel with a trace. Its atomic operations are
-- single steps: the compare-and-swap loops end by one swap that has the effect of the function.
pub mod Laws
use jaeger_client_go.Base.{
  ℕ, ◌-◌, ◌%◌, ◌<◌, ◌==◌, ltb, bit_and, bit_or, Bool, true, false, ◌&&◌, ◌≡◌, refl, List, [], Bytes,
  Map, lookup, insert, Option, none, some, table, table_lem, arith,
}

pub record SamplingState : Type 0 where
  pub state_flags : ℕ
  pub final : Bool
  pub local_root_span : ℕ
  -- The values are opaque to this type; the one kind that the repository stores is a bitmap.
  pub extended_state : Map (List ℕ)

abbrev pub fresh_state : SamplingState
fresh_state = record { state_flags = 0; final = false; local_root_span = 0; extended_state = [] }

abbrev pub flag_sampled : ℕ
flag_sampled = 1

abbrev pub flag_debug : ℕ
flag_debug = 2

abbrev pub flag_firehose : ℕ
flag_firehose = 8

-- a &^ b
abbrev pub and_not : ℕ → ℕ → ℕ
and_not a b = a - bit_and a b

unfoldable pub is_local_root_span : SamplingState → ℕ → Bool
is_local_root_span s id = id == s.local_root_span

abbrev pub set_flag : SamplingState → ℕ → SamplingState
set_flag s new_flag = record s { state_flags = bit_or s.state_flags new_flag }

abbrev pub unset_flag : SamplingState → ℕ → SamplingState
unset_flag s new_flag = record s { state_flags = and_not s.state_flags new_flag }

unfoldable pub set_sampled : SamplingState → SamplingState
set_sampled s = set_flag s flag_sampled

unfoldable pub unset_sampled : SamplingState → SamplingState
unset_sampled s = unset_flag s flag_sampled

unfoldable pub set_debug_and_sampled : SamplingState → SamplingState
set_debug_and_sampled s = set_flag s (bit_or flag_debug flag_sampled)

unfoldable pub set_firehose : SamplingState → SamplingState
set_firehose s = set_flag s flag_firehose

-- The argument is a byte.
unfoldable pub set_flags : SamplingState → ℕ → SamplingState
set_flags s b = record s { state_flags = b % 256 }

unfoldable pub set_final : SamplingState → SamplingState
set_final s = record s { final = true }

unfoldable pub flags : SamplingState → ℕ
flags s = s.state_flags % 256

abbrev pub has_flag : ℕ → ℕ → Bool
has_flag f flag = bit_and f flag == flag

unfoldable pub is_sampled : SamplingState → Bool
is_sampled s = has_flag s.state_flags flag_sampled

unfoldable pub is_debug : SamplingState → Bool
is_debug s = has_flag s.state_flags flag_debug

unfoldable pub is_firehose : SamplingState → Bool
is_firehose s = has_flag s.state_flags flag_firehose

unfoldable pub extended_state_for_key : SamplingState → Bytes → List ℕ → SamplingState × List ℕ
extended_state_for_key s key init_value = elim (lookup key s.extended_state) [
  | some value ↦ (s, value)
  | none ↦ (record s { extended_state = insert key init_value s.extended_state }, init_value)
]
