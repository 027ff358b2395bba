-- ===== src/Span/Logs/History.antt =====
-- What the logs of a finished span show of the records that were logged.
use jaeger_client_go.Base.{
  ℕ, ◌+◌, ◌-◌, ◌%◌, ◌≤◌, ◌<◌, ◌≡◌, refl, sym, ap, ◌⊎◌, inl, inr, List, [], ◌∷◌, ◌++◌, append-nil,
  append_assoc, some, length, length-append, set-append, get_elem?-append, take-append, drop-append,
  arith,
}
use mathlib.Core.List.{cons-ne-nil}
use jaeger_client_go.Span.Logs.{
  LogApi, Log, LogBuffer, empty_buffer, num_old, append_log, dropped_record, rotate_log_buffer,
  fix_logs, fix_logs_if_dropped,
}
use jaeger_client_go.Span.Logs.Rotate.{rotate_log_buffer_lem}
use jaeger_client_go.Span.Logs.Ring.{
  Follows, unbounded, filling, ring, Follows-empty, Follows-append_log,
}

module _ (api : LogApi) where
  -- every record of a history, in order
  abbrev pub append_all : ℕ → LogBuffer api.Field → List (Log api) → LogBuffer api.Field
  append_all m b [] = b
  append_all m b (lr ∷ h) = append_all m (append_log m b lr) h

  append_all-Follows :
      (m : ℕ) (done h : List (Log api)) (b : LogBuffer api.Field)
      → Follows m done b
      → Follows m (done ++ h) (append_all m b h)
  append_all-Follows m done [] b f = rw append-nil f
  append_all-Follows m done (lr ∷ h) b f = rw (← append_assoc done (lr ∷ []) h) (
      append_all-Follows m (done ++ lr ∷ []) h (append_log m b lr)
        (Follows-append_log m done b lr f))

  -- The specification: all records, or the oldest, a mark in the place of those that were lost
  -- and of the one that stood where the mark stands, and the newest.
  pub data Shows (max_logs : ℕ) (h : List (Log api)) : List (Log api) → Type 0 where
    complete : (max_logs ≡ 0) ⊎ (length h ≤ max_logs) → Shows max_logs h h
    marked :
        (old lost newest : List (Log api)) (last : Log api)
        → h ≡ old ++ (lost ++ last ∷ newest)
        → 0 < length lost
        → length old ≡ num_old max_logs
        → length old + 1 + length newest ≡ max_logs
        → Shows max_logs h (old ++ dropped_record api last.timestamp (length lost + 1) ∷ newest)

  module _ (old newest oldest : List (Log api)) (w : Log api) (d : ℕ) where
    fix_logs_lem :
        length old ≡ num_old (length old + length newest + 1 + length oldest)
        → length newest ≡ d % (length newest + 1 + length oldest)
        → fix_logs api (old ++ (newest ++ w ∷ oldest)) d
          ≡ some (old ++ dropped_record api w.timestamp (d + 1) ∷ (oldest ++ newest))
    unfolding fix_logs
    fix_logs_lem eo en =
        let logs = old ++ (newest ++ w ∷ oldest) in
        let size : length logs ≡ length old + length newest + 1 + length oldest =
          omega
            (arith, length-append old (newest ++ w ∷ oldest), length-append newest (w ∷ oldest)) in
        let at : num_old (length logs) ≡ length old = rw size (sym eo) in
        let pos : d % (length logs - length old) ≡ length newest =
          let e : length logs - length old ≡ length newest + 1 + length oldest = omega arith in
          rw e (sym en) in
        let turned : rotate_log_buffer (newest ++ w ∷ oldest) (length newest)
            ≡ some (w ∷ (oldest ++ newest)) =
          rotate_log_buffer_lem newest (w ∷ oldest) (cons-ne-nil w oldest) in
        (ground (
          arith,
          at,
          pos,
          drop-append old (newest ++ w ∷ oldest) (length old) refl,
          turned,
          take-append old (newest ++ w ∷ oldest) (length old) refl,
          get_elem?-append old (oldest ++ newest) w (length old) refl,
          set-append old (oldest ++ newest) w (dropped_record api w.timestamp (d + 1)) (length old)
              refl,
        ))

  module _ (m : ℕ) (h : List (Log api)) (b : LogBuffer api.Field) where
    -- without a dropped record the logs stay as they are
    kept : b.num_dropped_logs ≡ 0 → fix_logs_if_dropped api b ≡ some b
    unfolding fix_logs_if_dropped
    kept e = ground arith

    abbrev Finished : Type 0
    Finished =
        (b' : LogBuffer api.Field) × (fix_logs_if_dropped api b ≡ some b')
        × Shows m h b'.logs
        × (b'.num_dropped_logs ≡ 0)

    finished_kept : b.num_dropped_logs ≡ 0 → b.logs ≡ h → (m ≡ 0) ⊎ (length h ≤ m) → Finished
    finished_kept ed el fits = (b, kept ed, rw el (complete fits), ed)

    finished_marked :
        (old lost oldest newest : List (Log api)) (w : Log api)
        → h ≡ old ++ (lost ++ (w ∷ oldest ++ newest))
        → b.logs ≡ old ++ (newest ++ w ∷ oldest)
        → length old ≡ num_old m
        → 0 < length lost
        → length lost ≡ b.num_dropped_logs
        → length oldest + 1 + length newest ≡ m - num_old m
        → length newest ≡ b.num_dropped_logs % (m - num_old m)
        → Finished
    unfolding fix_logs_if_dropped
    finished_marked old lost oldest newest w eh el eo pos ed en ew =
        let size : m - num_old m ≡ length newest + 1 + length oldest = omega arith in
        let fixed =
          fix_logs_lem old newest oldest w b.num_dropped_logs (omega arith) (rw size at ew) in
        let logs = old ++ dropped_record api w.timestamp (length lost + 1) ∷ (oldest ++ newest) in
        (
          record { logs = logs; num_dropped_logs = 0 },
          ground (arith, fixed, el, ed, pos),
          marked old lost (oldest ++ newest) w eh pos eo
              (omega (arith, length-append oldest newest)),
          refl,
        )

  Follows-Finished :
      (m : ℕ) (h : List (Log api)) (b : LogBuffer api.Field) → Follows m h b → Finished m h b
  Follows-Finished m h b (unbounded z el ed) = finished_kept m h b ed el (inl z)
  Follows-Finished m h b (filling lt el ed) = finished_kept m h b ed el (inr (omega arith))
  Follows-Finished m h b (ring old lost [] newest pos eh el eo ed en ew) = absurd (grind arith)
  Follows-Finished m h b (ring old (x ∷ lost) (w ∷ oldest) newest pos eh el eo ed en ew) =
      finished_marked m h b old (x ∷ lost) oldest newest w eh el eo (omega arith) ed (omega arith)
        ew
  Follows-Finished m h b (ring old [] (w ∷ oldest) (v ∷ newest) pos eh el eo ed en ew) =
      absurd (grind arith)
  Follows-Finished m h b (ring old [] (w ∷ oldest) [] pos eh el eo ed en ew) =
      let size = length-append old (w ∷ oldest ++ []) in
      let size' = ap length (append-nil (w ∷ oldest)) in
      let fits : length h ≤ m = rw eh (omega arith) in
      finished_kept m h b (sym ed) (rw (el, eh) (simp append-nil)) (inr fits)

  -- Whatever is logged on a span, in whatever number: when the span is finished, its logs are all
  -- the records in order if there is no limit or they fit; otherwise they are exactly as many as
  -- the limit, the oldest `(maxLogs - 1) / 2` records in order, a mark that counts the missing
  -- records and has the time of the last of them, and the newest records in order. The loop that
  -- restores the order ends, and the drop counter is 0 again.
  pub fix_logs_if_dropped-Shows :
      (max_logs : ℕ) (h : List (Log api))
      → (b : LogBuffer api.Field) × (fix_logs_if_dropped api (append_all max_logs empty_buffer h)
          ≡ some b)
        × Shows max_logs h b.logs
        × (b.num_dropped_logs ≡ 0)
  fix_logs_if_dropped-Shows m h =
      Follows-Finished m h (append_all m empty_buffer h)
        (append_all-Follows m [] h empty_buffer (Follows-empty m))
