-- ===== src/Tests/Custom.antt =====
-- The samplers of package x.
use jaeger_client_go.Base.{
  ℕ, ◌+◌, ◌*◌, ◌≤◌, ◌==◌, ◌≡◌, Bool, true, false, if◌then◌else◌, List, [], ◌∷◌, none, some, Bytes,
  codes, bytes_eq, length, arith,
}
use jaeger_client_go.SpanContext.{SpanContext, States, empty_context}
use jaeger_client_go.SpanContext.Flags.{fresh_state}
use jaeger_client_go.Sampler.{Value, bool, SamplingDecision}
use jaeger_client_go.Custom.Priority.{new_bitmap, ask_delegates}
use jaeger_client_go.Custom.Priority.Bitmap.{new_bitmap-Represents}
use jaeger_client_go.Custom.Priority.Refinement.{ask_set, Agrees, ask_delegates-Agrees}
use jaeger_client_go.Custom.TagMatching.{TagMatcher, new_tag_matching_sampler, on_set_tag}
use jaeger_client_go.Custom.TagMatching.Rules.{
  last_matcher, decision_of, marked, on_set_tag-new_tag_matching_sampler,
}

-- the second of three delegates samples; the world counts the questions
abbrev ask : ℕ → ℕ → ℕ × SamplingDecision ℕ
ask index w = (w + 1, record { sample = index == 1; retryable = index == 0; tags = [] })

room : 0 + 3 ≤ 64 * length (new_bitmap 3)
unfolding new_bitmap
room = omega arith

ask_delegates-Agrees_example :
    Agrees ask
      (new_bitmap 3)
      (ask_delegates ask 3 0 (new_bitmap 3) false 0)
      (ask_set ask 3 0 (λ k. false) false 0)
ask_delegates-Agrees_example =
    ask_delegates-Agrees ask 3 0 (new_bitmap 3) (λ k. false) false 0 (new_bitmap-Represents 3) room

abbrev value_eq : Value ℕ → Value ℕ → Bool
value_eq (bool true) (bool true) = true
value_eq _ _ = false

-- only the value `true` equals something, itself
value_eq_sound : (v w : Value ℕ) → value_eq v w ≡ true → v ≡ w
value_eq_sound v w h = ground arith

abbrev show : Value ℕ → Bytes
show v = codes "true"

abbrev errors : List (TagMatcher ℕ)
errors = record { tag_value = bool true; firehose = true } ∷ []

abbrev states : States
states = fresh_state ∷ []

abbrev context : SpanContext
context = record empty_context { sampling_state = some 0 }

on_set_tag-new_tag_matching_sampler_example :
    on_set_tag value_eq show
      (new_tag_matching_sampler value_eq show (codes "error") errors)
      context
      (codes "error")
      (bool true)
      states
    ≡ (if bytes_eq (codes "error") (codes "error")
        then (
          marked value_eq show value_eq_sound
              (last_matcher value_eq show value_eq_sound none errors (bool true))
              context
              states,
          decision_of value_eq show value_eq_sound
              (codes "error")
              (last_matcher value_eq show value_eq_sound none errors (bool true))
              (bool true),
        )
        else (states, record { sample = false; retryable = true; tags = [] }))
on_set_tag-new_tag_matching_sampler_example =
    on_set_tag-new_tag_matching_sampler value_eq show value_eq_sound (codes "error") (codes "error")
      errors context (bool true) states
