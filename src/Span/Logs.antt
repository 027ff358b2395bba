-- ===== src/Span/Logs.antt =====
-- The bounded log buffer of a span: `appendLogNoLocking`, `rotateLogBuffer`, `fixLogs` and
-- `fixLogsIfDropped` of span.go.
pub mod Rotate
pub mod Ring
pub mod History
use jaeger_client_go.Base.{
  ℕ, zero, suc, ◌+◌, ◌-◌, ◌/◌, ◌%◌, ◌==◌, ltb, ◌||◌, if◌then◌else◌, List, [], ◌∷◌, ◌++◌, Option,
  none, some, length, get_elem?, set, take, drop, Bytes, codes,
}

-- The fields of a log record are made by opentracing-go, which is not part of the repository.
pub record LogApi : Type 1 where
  pub Field : Type 0
  pub string : Bytes → Bytes → Field
  pub int : Bytes → ℕ → Field

pub record LogRecord (Field : Type 0) : Type 0 where
  pub timestamp : ℕ
  pub fields : List Field

-- The fields `logs` and `numDroppedLogs` of a span.
pub record LogBuffer (Field : Type 0) : Type 0 where
  pub logs : List (LogRecord Field)
  pub num_dropped_logs : ℕ

abbrev pub empty_buffer : {Field : Type 0} → LogBuffer Field
empty_buffer = record { logs = []; num_dropped_logs = 0 }

-- (maxLogs - 1) / 2, with the division of Go, which rounds towards 0
abbrev pub num_old : ℕ → ℕ
num_old n = (n - 1) / 2

module _ {Field : Type 0} where
  unfoldable pub append_log : ℕ → LogBuffer Field → LogRecord Field → LogBuffer Field
  append_log max_logs s lr =
      if max_logs == 0 || ltb (length s.logs) max_logs
      then record s { logs = s.logs ++ lr ∷ [] }
      else record {
        logs =
            set s.logs (num_old max_logs + s.num_dropped_logs % (max_logs - num_old max_logs)) lr;
        num_dropped_logs = s.num_dropped_logs + 1;
      }

module _ {A : Type 0} where
  -- buf[i], buf[j] = buf[j], buf[i]
  unfoldable pub swap : List A → ℕ → ℕ → List A
  swap buf i j = elim (get_elem? buf i) [
    | none ↦ buf
    | some x ↦ elim (get_elem? buf j) [ none ↦ buf | some y ↦ set (set buf i y) j x ]
  ]

  -- The loop, with fuel; `none` means that the fuel ran out.
  unfoldable pub rotate_loop : ℕ → List A → ℕ → ℕ → ℕ → Option (List A)
  rotate_loop zero buf first middle next = none
  rotate_loop (suc fuel) buf first middle next =
      let buf' = swap buf first next in
      let at_end = rotate_loop fuel buf' (first + 1) middle middle in
      let wrapped = rotate_loop fuel buf' (first + 1) (next + 1) (next + 1) in
      let plain = rotate_loop fuel buf' (first + 1) middle (next + 1) in
      if first == middle
      then some buf
      else if (next + 1) == length buf
      then at_end
      else if (first + 1) == middle
      then wrapped
      else plain

  unfoldable pub rotate_log_buffer : List A → ℕ → Option (List A)
  rotate_log_buffer buf pos = rotate_loop (length buf + 1) buf 0 pos pos

module _ (api : LogApi) where
  abbrev pub Log : Type 0
  Log = LogRecord api.Field

  -- The record that stands for the dropped ones.
  abbrev pub dropped_record : ℕ → ℕ → Log
  dropped_record time num_dropped = record {
    timestamp = time;
    fields =
        api.string (codes "event") (codes "dropped Span logs")
        ∷ api.int (codes "dropped_log_count") num_dropped
        ∷ api.string (codes "component") (codes "jaeger-client")
        ∷ [];
  }

  -- logs[numOld] = LogRecord{Timestamp: logs[numOld].Timestamp, …}
  abbrev pub mark_dropped : List Log → ℕ → ℕ → List Log
  mark_dropped logs i num_dropped = elim (get_elem? logs i) [
    | none ↦ logs
    | some lr ↦ set logs i (dropped_record lr.timestamp num_dropped)
  ]

  unfoldable pub fix_logs : List Log → ℕ → Option (List Log)
  fix_logs logs num_dropped_logs =
      let old = num_old (length logs) in
      elim (rotate_log_buffer (drop old logs) (num_dropped_logs % (length logs - old))) [
        | none ↦ none
        | some rotated ↦ some (mark_dropped (take old logs ++ rotated) old (num_dropped_logs + 1))
      ]

  unfoldable pub fix_logs_if_dropped : LogBuffer api.Field → Option (LogBuffer api.Field)
  fix_logs_if_dropped s =
      if s.num_dropped_logs == 0 then some s else elim (fix_logs s.logs s.num_dropped_logs) [
        | none ↦ none
        | some logs ↦ some (record { logs = logs; num_dropped_logs = 0 })
      ]
