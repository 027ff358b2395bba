-- ===== src/Custom/TagMatching/Rules.antt =====
-- Which tags the sampler matches.
use jaeger_client_go.Base.{
  Bool, true, false, if◌then◌else◌, List, [], ◌∷◌, Option, none, some, Bytes, bytes_eq, ◌≡◌, refl,
  ap, ◌∙◌, Bool-cases, inl, inr,
}
use jaeger_client_go.SpanContext.Flags.{set_firehose}
use jaeger_client_go.SpanContext.{SpanContext, States, modify_state}
use jaeger_client_go.Sampler.{Value, SamplingDecision, undecided}
use jaeger_client_go.Custom.TagMatching.{
  TagMatcher, TagMatchingSampler, ValueMap, find_value, matcher_tags, add_matchers,
  new_tag_matching_sampler, decide, on_set_tag,
}

-- a test and its positive branch rewritten
if_both :
    {A : Type 0} {b c : Bool} {x x' : A} (y : A)
    → b ≡ c
    → x ≡ x'
    → ◌≡◌ {A = A} (if b then x else y) (if c then x' else y)
if_both y p q = λ i. if p i then q i else y

module _ {Num : Type 0} (value_eq : Value Num → Value Num → Bool) (show : Value Num → Bytes)
    (value_eq_sound : (v w : Value Num) → value_eq v w ≡ true → v ≡ w) where
  -- the last matcher for a value
  abbrev pub last_matcher :
      Option (TagMatcher Num) → List (TagMatcher Num) → Value Num → Option (TagMatcher Num)
  last_matcher acc [] v = acc
  last_matcher acc (m ∷ rest) v =
      last_matcher (if value_eq m.tag_value v then some m else acc) rest v

  -- what the sampler decides by a matcher
  abbrev pub decision_of : Bytes → Option (TagMatcher Num) → Value Num → SamplingDecision Num
  decision_of tag_key found v = elim found [
    | none ↦ undecided
    | some m ↦ record {
      sample = true;
      retryable = false;
      tags = matcher_tags value_eq show tag_key v;
    }
  ]

  -- what becomes of the trace's state by a matcher
  abbrev pub marked : Option (TagMatcher Num) → SpanContext → States → States
  marked none ctx st = st
  marked (some m) ctx st = if m.firehose then modify_state set_firehose ctx st else st

  -- The two maps of the sampler, read at a value.
  abbrev Reads : TagMatchingSampler Num → Value Num → Option (TagMatcher Num) → Type 0
  Reads s v found =
      (find_value value_eq show v s.matchers_by_value ≡ found)
      × (find_value value_eq show v s.sampler_tags_by_value
          ≡ elim found [ none ↦ none | some m ↦ some (matcher_tags value_eq show s.tag_key v) ])

  find_value-here :
      {V : Type 0} (v w : Value Num) (x : V) (m : ValueMap Num V)
      → value_eq w v ≡ true
      → find_value value_eq show v ((w, x) ∷ m) ≡ some x
  unfolding find_value
  find_value-here v w x m e = λ i. if e i then some x else find_value value_eq show v m

  find_value-there :
      {V : Type 0} (v w : Value Num) (x : V) (m : ValueMap Num V)
      → value_eq w v ≡ false
      → find_value value_eq show v ((w, x) ∷ m) ≡ find_value value_eq show v m
  unfolding find_value
  find_value-there v w x m e = λ i. if e i then some x else find_value value_eq show v m

  add_matchers-Reads :
      (matchers : List (TagMatcher Num)) (s : TagMatchingSampler Num) (v : Value Num)
      (acc : Option (TagMatcher Num))
      → Reads s v acc
      → Reads (add_matchers value_eq show s matchers) v (last_matcher acc matchers v)
        × ((add_matchers value_eq show s matchers).tag_key ≡ s.tag_key)
  unfolding add_matchers
  add_matchers-Reads [] s v acc h = (h, refl)
  add_matchers-Reads (m ∷ rest) s v acc (h, k) =
      let next = matcher_tags value_eq show s.tag_key in
      add_matchers-Reads rest _ v (if value_eq m.tag_value v then some m else acc)
        (elim (Bool-cases (value_eq m.tag_value v)) [
          | inl e ↦ rw e (
            find_value-here v m.tag_value m s.matchers_by_value e,
            find_value-here v m.tag_value (next m.tag_value) s.sampler_tags_by_value e
                ∙ ap (λ w. some (next w)) (value_eq_sound m.tag_value v e),
          )
          | inr e ↦ rw e (
            find_value-there v m.tag_value m s.matchers_by_value e ∙ h,
            find_value-there v m.tag_value (next m.tag_value) s.sampler_tags_by_value e ∙ k,
          )
        ])

  -- nothing is found in the empty map
  find_value-nil : {V : Type 0} (v : Value Num) → find_value value_eq show {V = V} v [] ≡ none
  unfolding find_value
  find_value-nil v = refl

  decide-Reads :
      (s : TagMatchingSampler Num) (ctx : SpanContext) (v : Value Num) (st : States)
      (found : Option (TagMatcher Num))
      → Reads s v found
      → decide value_eq show s ctx v st ≡ (marked found ctx st, decision_of s.tag_key found v)
  unfolding decide
  decide-Reads s ctx v st none (h, k) = rw (h, decide) refl
  decide-Reads s ctx v st (some m) (h, k) = rw (h, k, decide) refl

  -- A sampler built from a list of matchers answers a tag of its key by the last matcher of the
  -- list with the tag's value: it samples with the key and the value among its tags, and marks the
  -- trace as firehose exactly when that matcher asks for it. Where no matcher has the value, or the
  -- key is another one, it is undecided and leaves the trace alone.
  pub on_set_tag-new_tag_matching_sampler :
      (tag_key key : Bytes) (matchers : List (TagMatcher Num)) (ctx : SpanContext) (v : Value Num)
      (st : States)
      → on_set_tag value_eq show
          (new_tag_matching_sampler value_eq show tag_key matchers)
          ctx
          key
          v
          st
        ≡ (if bytes_eq key tag_key
            then (let found : Option (TagMatcher Num) = last_matcher none matchers v in
                (marked found ctx st, decision_of tag_key found v))
            else (st, undecided))
  unfolding on_set_tag new_tag_matching_sampler
  on_set_tag-new_tag_matching_sampler tag_key key matchers ctx v st =
      let s : TagMatchingSampler Num = record {
        tag_key = tag_key;
        matchers_by_value = [];
        sampler_tags_by_value = [];
      } in
      let reads = add_matchers-Reads matchers s v none (find_value-nil v, find_value-nil v) in
      if_both (st, undecided) (ap (bytes_eq key) (reads.1))
        (decide-Reads (add_matchers value_eq show s matchers) ctx v st
            (last_matcher none matchers v) (reads.0)
          ∙ ap
              (λ k. (
                marked (last_matcher none matchers v) ctx st,
                decision_of k (last_matcher none matchers v) v,
              ))
              (reads.1))
