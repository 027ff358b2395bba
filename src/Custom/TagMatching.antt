-- ===== src/Custom/TagMatching.antt =====
-- x/tag_sampler.go: a sampler that decides by the value of one tag.
pub mod Rules
use jaeger_client_go.Base.{
  ℕ, ◌==◌, Bool, true, false, if◌then◌else◌, List, [], ◌∷◌, ◌++◌, Option, none, some, Bytes, codes,
  bytes_eq, Map, map,
}
use jaeger_client_go.SpanContext.Flags.{set_firehose}
use jaeger_client_go.SpanContext.{SpanContext, States, modify_state}
use jaeger_client_go.Sampler.{Value, string, Tag, SamplingDecision, sampler_tags, undecided}

pub record TagMatcher (Num : Type 0) : Type 0 where
  pub tag_value : Value Num
  pub firehose : Bool

-- A map from tag values, as a list with the latest entry first.
abbrev pub ValueMap : Type 0 → Type 0 → Type 0
ValueMap Num V = List (Value Num × V)

pub record TagMatchingSampler (Num : Type 0) : Type 0 where
  pub tag_key : Bytes
  pub matchers_by_value : ValueMap Num (TagMatcher Num)
  pub sampler_tags_by_value : ValueMap Num (List (Tag Num))

-- `==` on interface values, and `%v`, are the language's and its library's. The values are
-- hashable: a map lookup with another one, such as a slice, panics.
module _ {Num : Type 0} (value_eq : Value Num → Value Num → Bool) (show : Value Num → Bytes) where
  unfoldable pub find_value : {V : Type 0} → Value Num → ValueMap Num V → Option V
  find_value v [] = none
  find_value v ((w, x) ∷ m) = if value_eq w v then some x else find_value v m

  abbrev pub matcher_tags : Bytes → Value Num → List (Tag Num)
  matcher_tags tag_key v =
      sampler_tags (codes "TagMatchingSampler") (string (tag_key ++ (codes "=" ++ show v)))

  -- the loop of `NewTagMatchingSampler`
  unfoldable pub add_matchers :
      TagMatchingSampler Num → List (TagMatcher Num) → TagMatchingSampler Num
  add_matchers s [] = s
  add_matchers s (m ∷ rest) =
      add_matchers
        (record s {
          matchers_by_value = (m.tag_value, m) ∷ s.matchers_by_value;
          sampler_tags_by_value =
              (m.tag_value, matcher_tags s.tag_key m.tag_value) ∷ s.sampler_tags_by_value;
        })
        rest

  unfoldable pub new_tag_matching_sampler : Bytes → List (TagMatcher Num) → TagMatchingSampler Num
  new_tag_matching_sampler tag_key matchers =
      add_matchers
        (record { tag_key = tag_key; matchers_by_value = []; sampler_tags_by_value = [] }) matchers

  -- The legacy map of values becomes matchers behind the others.
  unfoldable pub new_from_strategy :
      Bytes → List (TagMatcher Num) → Map (TagMatcher Num) → TagMatchingSampler Num
  new_from_strategy key matchers values =
      new_tag_matching_sampler key
        (matchers ++ map (λ e. record e.1 { tag_value = string e.0 }) values)

  unfoldable pub decide :
      TagMatchingSampler Num → SpanContext → Value Num → States → States × SamplingDecision Num
  decide s ctx value st = elim (find_value value s.matchers_by_value) [
    | none ↦ (st, undecided)
    | some m ↦ (
      (if m.firehose then modify_state set_firehose ctx st else st),
      record {
        sample = true;
        retryable = false;
        tags = elim (find_value value s.sampler_tags_by_value) [ none ↦ [] | some tags ↦ tags ];
      },
    )
  ]

  unfoldable pub on_set_tag :
      TagMatchingSampler Num
      → SpanContext
      → Bytes
      → Value Num
      → States
      → States × SamplingDecision Num
  on_set_tag s ctx key value st =
      if bytes_eq key s.tag_key then decide s ctx value st else (st, undecided)
