-- ===== src/Span/Finished.antt =====
-- Every span can be finished, and a sampled one shows its logs.
use jaeger_client_go.Base.{
  ℕ, ◌≡◌, refl, sym, ◌⊎◌, Bool, true, false, List, [], ◌∷◌, ◌++◌, some, Bool-cases, inl, inr,
}
use jaeger_client_go.Base.Integers.{time_sub}
use jaeger_client_go.SpanContext.{is_sampling_finalized, context_is_sampled}
use jaeger_client_go.Sampler.{SamplingDecision, Tag}
use jaeger_client_go.Span.Logs.{LogApi, Log, LogBuffer, empty_buffer}
use jaeger_client_go.Span.Logs.History.{append_all, Shows, fix_logs_if_dropped-Shows}
use jaeger_client_go.Span.{
  Span, Components, World', append_tag, append_tags, apply_sampling_decision, decide_at_finish,
  finished_metric, finish_logs, finish_with_options,
}

module _ {Num Field : Type 0} where
  log_buffer-append_tags :
      (s : Span Num Field) (tags : List (Tag Num)) → (append_tags s tags).log_buffer ≡ s.log_buffer
  unfolding append_tag
  log_buffer-append_tags s [] = refl
  log_buffer-append_tags s (tag ∷ rest) =
      log_buffer-append_tags (append_tag s tag.key tag.value) rest

  log_buffer-decision :
      (C : Components Num Field) (d : SamplingDecision Num) (s : Span Num Field) (w : World' C)
      → (apply_sampling_decision C d s w).0.log_buffer ≡ s.log_buffer
  unfolding apply_sampling_decision
  log_buffer-decision C d s w = elim (Bool-cases d.sample) [
    | inl y ↦ rw y (log_buffer-append_tags s d.tags)
    | inr n ↦ rw n
  ]

finish_logs_lem :
    (api : LogApi) (max_logs : ℕ) (h log_records : List (Log api))
    → (b : LogBuffer api.Field) × (finish_logs api
          (append_all api max_logs empty_buffer h)
          log_records
        ≡ some b)
      × (shown : List (Log api)) × Shows api max_logs h shown
      × (b.logs ≡ shown ++ log_records)
      × (b.num_dropped_logs ≡ 0)
unfolding finish_logs
finish_logs_lem api max_logs h log_records =
    let (b, e, shows, zero_dropped) = fix_logs_if_dropped-Shows api max_logs h in
    (
      record b { logs = b.logs ++ log_records },
      rw (e, finish_logs),
      b.logs,
      shows,
      refl,
      zero_dropped,
    )

module _ {Num : Type 0} (api : LogApi) (C : Components Num api.Field) where
  log_buffer-decide :
      (s : Span Num api.Field) (w : World' C) → (decide_at_finish C s w).0.log_buffer ≡ s.log_buffer
  unfolding decide_at_finish
  log_buffer-decide s w = elim (Bool-cases (is_sampling_finalized w.states s.context)) [
    | inl f ↦ rw f
    | inr pending ↦ rw pending (log_buffer-decision C _ s _)
  ]

  -- Finishing a span on which any records were logged, with any sampler, ends. The span goes to the
  -- reporter exactly if it is sampled after the last sampling decision. Then its logs are what the
  -- bounded log shows of the records, followed by the records of the options; else they stay.
  pub finish_with_options_lem :
      (s : Span Num api.Field) (finish_time max_logs : ℕ) (h log_records : List (Log api))
      (w : World' C)
      → s.log_buffer ≡ append_all api max_logs empty_buffer h
      → (s' : Span Num api.Field) × (w' : World' C) × (reported : Bool) × (finish_with_options api C
            s finish_time log_records w
          ≡ some (s', w', reported))
        × (reported ≡ context_is_sampled w'.states s.context)
        × (((reported ≡ true)
              × (shown : List (Log api)) × Shows api max_logs h shown
              × (s'.log_buffer.logs ≡ shown ++ log_records)
              × (s'.log_buffer.num_dropped_logs ≡ 0))
            ⊎ ((reported ≡ false) × (s'.log_buffer ≡ s.log_buffer)))
  unfolding finish_with_options
  finish_with_options_lem s finish_time max_logs h log_records w logged =
      let s1 = record s { duration = time_sub finish_time s.start_time } in
      let decided = decide_at_finish C s1 w in
      let kept = log_buffer-decide s1 w in
      let w3 = record decided.1 {
        metrics = finished_metric C decided.1 s.context ∷ decided.1.metrics;
      } in
      let (b, e, shown, shows, logs, zero_dropped) = finish_logs_lem api max_logs h log_records in
      elim (Bool-cases (context_is_sampled decided.1.states s.context)) [
        | inl y ↦
            let done : finish_logs api decided.0.log_buffer log_records ≡ some b =
              rw (kept, logged) e in
            (
              record decided.0 { log_buffer = b },
              w3,
              true,
              rw (y, done),
              sym y,
              inl (refl, shown, shows, logs, zero_dropped),
            )
        | inr n ↦ (decided.0, w3, false, rw n, sym n, inr (refl, kept))
      ]
