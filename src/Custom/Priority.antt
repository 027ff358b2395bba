-- ===== src/Custom/Priority.antt =====
-- x/priority_sampler.go: a sampler that asks its delegates in order, and each of them no more once
-- its decision is final. The final ones are bits of a bitmap in the sampling state that the spans
-- of a trace share.
pub mod Bitmap
pub mod Refinement
use jaeger_client_go.Base.{
  ℕ, zero, suc, ◌+◌, ◌/◌, ◌%◌, ◌^◌, ◌==◌, ◌||◌, not, bit_and, bit_or, Bool, true, false,
  if◌then◌else◌, List, [], ◌∷◌, Option, none, some, Bytes, codes, insert, get_elem?, set, length,
}
use jaeger_client_go.SpanContext.Flags.{SamplingState, extended_state_for_key}
use jaeger_client_go.SpanContext.{SpanContext, States, state_of, modify_state}
use jaeger_client_go.Sampler.{SamplingDecision}

abbrev pub zeros : ℕ → List ℕ
zeros zero = []
zeros (suc n) = 0 ∷ zeros n

-- `newPrioritySamplerState`
unfoldable pub new_bitmap : ℕ → List ℕ
new_bitmap count = zeros (1 + count / 64)

-- `isSamplerRetryable`: whether the bit is set; `none` is an index out of range.
unfoldable pub is_sampler_retryable : List ℕ → ℕ → Option Bool
is_sampler_retryable bitmap index = elim (get_elem? bitmap (index / 64)) [
  | none ↦ none
  | some value ↦ some (bit_and value (2 ^ (index % 64)) == 2 ^ (index % 64))
]

-- `markSamplerFinished`; the loop of compare-and-swap is one step.
unfoldable pub mark_sampler_finished : List ℕ → ℕ → Option (List ℕ)
mark_sampler_finished bitmap index = elim (get_elem? bitmap (index / 64)) [
  | none ↦ none
  | some value ↦ some (set bitmap (index / 64) (bit_or value (2 ^ (index % 64))))
]

-- The delegates act on a world `W`; they leave the bitmap alone.
module _ {Num W : Type 0} (ask : ℕ → W → W × SamplingDecision Num) where
  -- the loop of `trySampling` from the delegate `index` on, with `n` delegates to go
  unfoldable pub ask_delegates :
      ℕ → ℕ → List ℕ → Bool → W → Option (List ℕ × W × SamplingDecision Num)
  ask_delegates zero index bitmap retryable w =
      some (bitmap, w, record { sample = false; retryable = retryable; tags = [] })
  ask_delegates (suc n) index bitmap retryable w = elim (is_sampler_retryable bitmap index) [
    | none ↦ none
    | some true ↦ ask_delegates n (suc index) bitmap retryable w
    | some false ↦
        let (w', decision) = ask index w in
        let marked : Option (List ℕ) =
          if not decision.retryable then mark_sampler_finished bitmap index else some bitmap in
        elim marked [
          | none ↦ none
          | some bitmap' ↦ elim decision.sample [
            | true ↦ some (bitmap', w', decision)
            | false ↦ ask_delegates n (suc index) bitmap' (retryable || decision.retryable) w'
          ]
        ]
  ]

-- `trySampling` on a span: the bitmap is made when the trace has none, and its writes are seen by
-- all spans that share the sampling state. `none` is a panic.
module _ {Num Z : Type 0} (count : ℕ)
    (ask : ℕ → Z × States → (Z × States) × SamplingDecision Num) where
  abbrev state_key : Bytes
  state_key = codes "priority-sampler"

  unfoldable pub try_sampling :
      SpanContext → Z × States → Option ((Z × States) × SamplingDecision Num)
  try_sampling ctx (z, st) = elim (state_of st ctx) [
    | none ↦ none
    | some s ↦
        let (s', bitmap) = extended_state_for_key s state_key (new_bitmap count) in
        elim (ask_delegates ask count 0 bitmap false (z, modify_state (λ _. s') ctx st)) [
          | none ↦ none
          | some (bitmap', (z', st'), decision) ↦ some (
            (
              z',
              modify_state
                  (λ t. record t { extended_state = insert state_key bitmap' t.extended_state }) ctx
                  st',
            ),
            decision,
          )
        ]
  ]
