-- ===== src/Sampler/Remote/Poll.antt =====
-- What polls do to the sampler and its counters.
use jaeger_client_go.Base.{
  ℕ, ◌+◌, ◌≤◌, ◌≡◌, refl, ap, ◌∙◌, Bool, true, false, Bool-cases, inl, inr, ◌⊎◌, ◌&&◌,
  if◌then◌else◌, List, [], ◌∷◌, none, some, Option-cases, length, arith,
}
use jaeger_client_go.Base.Float.{Float}
use jaeger_client_go.Sampler.{init_probabilistic, update_probabilistic, out_of_range}
use jaeger_client_go.Sampler.Remote.{
  ActiveSampler, probabilistic, rate_limiting, per_operation, other, SamplingStrategy,
  SamplerUpdater, failed, updated, update_to_probabilistic, run_updater,
  update_sampler_via_updaters, default_updaters, RemotelyControlledSampler, Response, fetch_failed,
  parse_failed, parsed, update_sampler, poll_all,
}

module _ (F : Float) where
  abbrev pub is_probabilistic : ActiveSampler F → Bool
  is_probabilistic (probabilistic s) = true
  is_probabilistic (rate_limiting s) = false
  is_probabilistic (per_operation s) = false
  is_probabilistic (other n) = false

  -- One poll adds one to just one of the three counts of outcomes, and one that does not count as
  -- an update keeps the sampler.
  poll_once :
      (s : RemotelyControlledSampler F) (r : Response F) (now : ℕ)
      → ((update_sampler F s r now).query_failures
            + ((update_sampler F s r now).update_failures + (update_sampler F s r now).updates)
          ≡ (s.query_failures + (s.update_failures + s.updates)) + 1)
        × (((update_sampler F s r now).updates ≡ s.updates + 1)
            ⊎ (((update_sampler F s r now).updates ≡ s.updates)
                × ((update_sampler F s r now).sampler ≡ s.sampler)))
  unfolding update_sampler
  poll_once s fetch_failed now = (omega arith, inr (refl, refl))
  poll_once s parse_failed now = (omega arith, inr (refl, refl))
  poll_once s (parsed strategy) now =
      elim (Option-cases (update_sampler_via_updaters F s.updaters s.sampler strategy now)) [
        | inl e ↦ (ground (arith, e), inr (ground (arith, e), ground (arith, e)))
        | inr (x, e) ↦ (ground (arith, e), inl (ground (arith, e)))
      ]

  updates_grow :
      (s : RemotelyControlledSampler F) (polls : List (Response F × ℕ))
      → s.updates ≤ (poll_all F s polls).updates
  unfolding poll_all
  updates_grow s [] = omega arith
  updates_grow s ((r, now) ∷ rest) =
      let next : RemotelyControlledSampler F = update_sampler F s r now in
      elim ((poll_once s r now).1) [
        | inl e ↦ omega (arith, e, updates_grow next rest)
        | inr h ↦ omega (arith, h.0, updates_grow next rest)
      ]

  -- Every poll counts as just one of a failed query, a failed update and an update. While none
  -- counts as an update, whatever the responses were, the sampler stays the one it was.
  pub poll_all_lem :
      (s : RemotelyControlledSampler F) (polls : List (Response F × ℕ))
      → ((poll_all F s polls).query_failures
            + ((poll_all F s polls).update_failures + (poll_all F s polls).updates)
          ≡ (s.query_failures + (s.update_failures + s.updates)) + length polls)
        × ((s.updates + 1 ≤ (poll_all F s polls).updates)
            ⊎ ((poll_all F s polls).sampler ≡ s.sampler))
  unfolding poll_all
  poll_all_lem s [] = (omega arith, inr refl)
  poll_all_lem s ((r, now) ∷ rest) =
      let next : RemotelyControlledSampler F = update_sampler F s r now in
      let (count, outcome) = poll_once s r now in
      let (counts, outcomes) = poll_all_lem next rest in
      (
        omega (arith, count, counts),
        elim outcome [
          | inl e ↦ inl (omega (arith, e, updates_grow next rest))
          | inr (same, kept) ↦ elim outcomes [
            | inl more ↦ inl (omega (arith, more, same))
            | inr kept' ↦ inr (kept' ∙ kept)
          ]
        ],
      )

  to_probabilistic_lem :
      (sampler : ActiveSampler F) (rate : F.Num)
      → update_to_probabilistic F sampler rate ≡ (
          if is_probabilistic sampler && out_of_range F rate
          then failed
          else updated (probabilistic (init_probabilistic F rate)))
  unfolding update_to_probabilistic update_probabilistic
  to_probabilistic_lem (probabilistic s) rate = ground arith
  to_probabilistic_lem (rate_limiting s) rate = refl
  to_probabilistic_lem (per_operation s) rate = refl
  to_probabilistic_lem (other n) rate = refl

  via_default_updaters :
      (sampler : ActiveSampler F) (max_operations : ℕ) (late_binding : Bool)
      (strategy : SamplingStrategy F) (rate : F.Num) (now : ℕ)
      → strategy.operation_sampling ≡ none
      → strategy.probabilistic_sampling ≡ some rate
      → update_sampler_via_updaters F
          (default_updaters F max_operations late_binding)
          sampler
          strategy
          now
        ≡ (if is_probabilistic sampler && out_of_range F rate
            then none
            else some (probabilistic (init_probabilistic F rate)))
  unfolding update_sampler_via_updaters run_updater
  via_default_updaters sampler max_operations late_binding strategy rate now o p =
      elim (Bool-cases (is_probabilistic sampler && out_of_range F rate)) [
        | inl e ↦ ground (arith, o, p, e, to_probabilistic_lem sampler rate)
        | inr e ↦ ground (arith, o, p, e, to_probabilistic_lem sampler rate)
      ]

  -- With the default updaters, a response with a probabilistic strategy and none by operation, also
  -- if it has a rate limit, makes the active sampler the probabilistic sampler of the rate, brought
  -- into the range from 0 to 1, whatever it was before. Only if it was a probabilistic one already
  -- and the rate is out of that range, the sampler stays and the poll counts as a failed update.
  pub update_sampler-probabilistic :
      (s : RemotelyControlledSampler F) (max_operations : ℕ) (late_binding : Bool)
      (strategy : SamplingStrategy F) (rate : F.Num) (now : ℕ)
      → s.updaters ≡ default_updaters F max_operations late_binding
      → strategy.operation_sampling ≡ none
      → strategy.probabilistic_sampling ≡ some rate
      → update_sampler F s (parsed strategy) now ≡ (
          if is_probabilistic s.sampler && out_of_range F rate
          then record s { retrieved = s.retrieved + 1; update_failures = s.update_failures + 1 }
          else record s {
            retrieved = s.retrieved + 1;
            sampler = probabilistic (init_probabilistic F rate);
            updates = s.updates + 1;
          })
  unfolding update_sampler
  update_sampler-probabilistic s max_operations late_binding strategy rate now u o p =
      let got =
        ap
          (λ (us : List (SamplerUpdater F)).
            update_sampler_via_updaters F us s.sampler strategy now)
          u
        ∙ via_default_updaters s.sampler max_operations late_binding strategy rate now o p in
      elim (Bool-cases (is_probabilistic s.sampler && out_of_range F rate)) [
        | inl e ↦ rw e (ground (arith, got, e))
        | inr e ↦ rw e (ground (arith, got, e))
      ]
