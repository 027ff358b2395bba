-- ===== src/Span/Logs/Ring.antt =====
-- The part of a full log buffer behind its oldest records is a ring that `append_log` overwrites.
use native.Mathlib.Decide.{dec_lt}
use jaeger_client_go.Base.{
  ℕ, zero, suc, ◌+◌, ◌-◌, ◌%◌, ◌≤◌, ◌<◌, ◌≡◌, refl, sym, ◌⊎◌, inl, inr, List, [], ◌∷◌, ◌++◌,
  append-nil, append_assoc, length, set, take, drop, length-append, length-take, length-drop,
  set-append, take-append-drop, arith,
}
use jaeger_client_go.Span.Logs.{LogRecord, LogBuffer, empty_buffer, num_old, append_log}

mod_step : (d n k : ℕ) → k ≡ d % n → k + 1 < n → (d + 1) % n ≡ k + 1
mod_step d n k h lt = grind arith

mod_wrap : (d n k : ℕ) → k ≡ d % n → k + 1 ≡ n → (d + 1) % n ≡ 0
mod_wrap d n k h lt = grind arith

module _ {Field : Type 0} where
  -- How a buffer stands to the history of the records that were appended to it: it is the history
  -- as long as that fits; then it is the oldest records and a ring that holds the newest.
  pub data Follows (max_logs : ℕ) (h : List (LogRecord Field)) (b : LogBuffer Field) : Type 0 where
    unbounded : max_logs ≡ 0 → b.logs ≡ h → b.num_dropped_logs ≡ 0 → Follows max_logs h b
    filling : length h < max_logs → b.logs ≡ h → b.num_dropped_logs ≡ 0 → Follows max_logs h b
    ring :
        (old lost oldest newest : List (LogRecord Field))
        → 0 < max_logs
        → h ≡ old ++ (lost ++ (oldest ++ newest))
        → b.logs ≡ old ++ (newest ++ oldest)
        → length old ≡ num_old max_logs
        → length lost ≡ b.num_dropped_logs
        → length oldest + length newest ≡ max_logs - num_old max_logs
        → length newest ≡ b.num_dropped_logs % (max_logs - num_old max_logs)
        → Follows max_logs h b

  pub Follows-empty : (max_logs : ℕ) → Follows max_logs [] empty_buffer
  Follows-empty zero = unbounded refl refl refl
  Follows-empty (suc n) = filling (omega arith) refl refl

  module _ (m : ℕ) (h : List (LogRecord Field)) (b : LogBuffer Field) (lr : LogRecord Field) where
    room_lem :
        (m ≡ 0) ⊎ (length b.logs < m) → append_log m b lr ≡ record b { logs = b.logs ++ lr ∷ [] }
    unfolding append_log
    room_lem room = ground arith

    full_lem :
        0 < m
        → m ≤ length b.logs
        → append_log m b lr ≡ record {
          logs = set b.logs (num_old m + b.num_dropped_logs % (m - num_old m)) lr;
          num_dropped_logs = b.num_dropped_logs + 1;
        }
    unfolding append_log
    full_lem pos full = ground arith

    -- The buffer that just became full is a ring of which nothing is overwritten.
    fills :
        length h < m
        → m ≤ length h + 1
        → b.logs ≡ h
        → b.num_dropped_logs ≡ 0
        → Follows m (h ++ lr ∷ []) (record b { logs = b.logs ++ lr ∷ [] })
    fills lt full el ed =
        let h' = h ++ lr ∷ [] in
        let n = num_old m in
        let size = length-append h (lr ∷ []) in
        ring (take n h') [] (drop n h') [] (omega arith) (simp (append-nil, take-append-drop n h'))
          (rw el (rw (take-append-drop n h'))) (omega (arith, length-take n h')) (omega arith)
          (omega (arith, length-drop n h')) (rw ed (omega arith))

  overwrite :
      (m : ℕ) (h : List (LogRecord Field)) (b : LogBuffer Field) (lr : LogRecord Field)
      (old lost oldest newest : List (LogRecord Field))
      → 0 < m
      → h ≡ old ++ (lost ++ (oldest ++ newest))
      → b.logs ≡ old ++ (newest ++ oldest)
      → length old ≡ num_old m
      → length lost ≡ b.num_dropped_logs
      → length oldest + length newest ≡ m - num_old m
      → length newest ≡ b.num_dropped_logs % (m - num_old m)
      → Follows m (h ++ lr ∷ []) (append_log m b lr)
  overwrite m h b lr old lost [] newest pos eh el eo ed en ew = absurd (grind arith)
  overwrite m h b lr old lost (w ∷ oldest) newest pos eh el eo ed en ew =
      let k = num_old m + b.num_dropped_logs % (m - num_old m) in
      let full : m ≤ length b.logs = rw el (
        omega
          (arith, length-append old (newest ++ w ∷ oldest), length-append newest (w ∷ oldest))) in
      let write : set b.logs k lr ≡ old ++ (newest ++ lr ∷ oldest) =
        rw (el, ← append_assoc old newest (w ∷ oldest))
          (rw (set-append (old ++ newest) oldest w lr k (omega (arith, length-append old newest)))
            (append_assoc old newest (lr ∷ oldest))) in
      rw (full_lem m h b lr pos full, write) (after oldest eh en)
    where
      after :
          (oldest : List (LogRecord Field))
          → h ≡ old ++ (lost ++ ((w ∷ oldest) ++ newest))
          → length (w ∷ oldest) + length newest ≡ m - num_old m
          → Follows m (h ++ lr ∷ []) (record {
            logs = old ++ (newest ++ lr ∷ oldest);
            num_dropped_logs = b.num_dropped_logs + 1;
          })
      after [] eh en =
          ring old (lost ++ w ∷ []) (newest ++ lr ∷ []) [] pos
            (rw eh (simp (append_assoc, append-nil))) refl eo
            (omega (arith, length-append lost (w ∷ [])))
            (omega (arith, length-append newest (lr ∷ [])))
            (sym (mod_wrap b.num_dropped_logs (m - num_old m) (length newest) ew (omega arith)))
      after (v ∷ oldest) eh en =
          ring old (lost ++ w ∷ []) (v ∷ oldest) (newest ++ lr ∷ []) pos (rw eh (simp append_assoc))
            (simp append_assoc) eo (omega (arith, length-append lost (w ∷ [])))
            (omega (arith, length-append newest (lr ∷ [])))
            (omega (
              arith,
              length-append newest (lr ∷ []),
              mod_step b.num_dropped_logs (m - num_old m) (length newest) ew (omega arith),
            ))

  pub Follows-append_log :
      (m : ℕ) (h : List (LogRecord Field)) (b : LogBuffer Field) (lr : LogRecord Field)
      → Follows m h b
      → Follows m (h ++ lr ∷ []) (append_log m b lr)
  Follows-append_log m h b lr (unbounded z el ed) =
      rw (room_lem m h b lr (inl z)) (unbounded z (rw el) ed)
  Follows-append_log m h b lr (filling lt el ed) =
      rw (room_lem m h b lr (inr (rw el lt))) (elim (dec_lt (length h + 1) m) [
        | yes more ↦ filling (omega (arith, length-append h (lr ∷ []))) (rw el) ed
        | no stop ↦ fills m h b lr lt (omega arith) el ed
      ])
  Follows-append_log m h b lr (ring old lost oldest newest pos eh el eo ed en ew) =
      overwrite m h b lr old lost oldest newest pos eh el eo ed en ew
