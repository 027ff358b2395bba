-- ===== src/Reporter.antt =====
-- reporter.go: the remote reporter, which queues spans for a go-routine that gives them to a
-- transport. A step is one operation of one go-routine on the shared state; the number of items in
-- the queue is written in the same step as the queue.
pub mod Conservation
pub mod Close
use jaeger_client_go.Base.{
  ℕ, zero, suc, ◌+◌, ◌-◌, ◌<◌, ◌≡◌, ltb, Bool, true, false, if◌then◌else◌, List, [], ◌∷◌, ◌++◌,
  Option, none, some, length,
}
use jaeger_client_go.Transport.{Transport, Sent}

pub data ReporterQueueItem (Span : Type 0) : Type 0 where
  span_item : Span → ReporterQueueItem Span
  close_item : ReporterQueueItem Span

-- `references` is the number of references on spans that the reporter has taken (`Retain`) and not
-- given back (`Release`); `stopped` tells that the go-routine has returned.
pub record RemoteReporter (Span State : Type 0) : Type 0 where
  pub queue_size : ℕ
  pub queue : List (ReporterQueueItem Span)
  pub queue_length : ℕ
  pub closed : Bool
  pub dropped_count : ℕ
  pub sender : State
  pub references : ℕ
  pub reporter_success : ℕ
  pub reporter_failure : ℕ
  pub reporter_dropped : ℕ
  pub reporter_queue_length : ℕ
  pub stopped : Bool

-- A new reporter; a queue size of 0 is the default of 100.
unfoldable pub new_remote_reporter : {Span State : Type 0} → ℕ → State → RemoteReporter Span State
new_remote_reporter size sender = record {
  queue_size = elim size [ zero ↦ 100 | suc n ↦ suc n ];
  queue = [];
  queue_length = 0;
  closed = false;
  dropped_count = 0;
  sender = sender;
  references = 0;
  reporter_success = 0;
  reporter_failure = 0;
  reporter_dropped = 0;
  reporter_queue_length = 0;
  stopped = false;
}

module _ {Span State : Type 0} (T : Transport Span State) where
  abbrev pub Reporter : Type 0
  Reporter = RemoteReporter Span State

  -- `Report`. The operands of a select statement are evaluated on entering it: the span is retained
  -- in both cases.
  unfoldable pub report : Span → Reporter → Reporter
  report span r =
      let retained : Reporter = record r { references = r.references + 1 } in
      if ltb (length r.queue) r.queue_size
      then record retained {
        queue = r.queue ++ span_item span ∷ [];
        queue_length = r.queue_length + 1;
      }
      else record retained {
        reporter_dropped = r.reporter_dropped + 1;
        dropped_count = r.dropped_count + 1;
      }

  -- the `flush` of `processQueue`
  unfoldable pub flush_sender : Reporter → Reporter
  flush_sender r =
      let (sender, result) = T.flush r.sender in
      if result.failed
      then record r { sender = sender; reporter_failure = r.reporter_failure + result.count }
      else record r { sender = sender; reporter_success = r.reporter_success + result.count }

  -- A span that the go-routine has taken from the queue.
  unfoldable pub process_span : Span → Reporter → Reporter
  process_span span r =
      let (sender, result) = T.append r.sender span in
      let released : Reporter = record r { sender = sender; references = r.references - 1 } in
      if result.failed
      then record released { reporter_failure = r.reporter_failure + result.count }
      else if ltb 0 result.count
      then record released {
        reporter_success = r.reporter_success + result.count;
        reporter_queue_length = r.queue_length;
      }
      else released

  -- One turn of the loop of `processQueue` on the first item of a queue.
  unfoldable pub process_item :
      ReporterQueueItem Span → List (ReporterQueueItem Span) → Reporter → Reporter
  process_item (span_item span) rest r =
      process_span span (record r { queue = rest; queue_length = r.queue_length - 1 })
  process_item close_item rest r =
      record (flush_sender (record r { queue = rest; queue_length = r.queue_length - 1 })) {
        stopped = true;
      }

  -- The steps of a reporter, with the number of spans that each reports.
  pub data Step : ℕ → Reporter → Reporter → Type 0 where
    reporting : (span : Span) (r : Reporter) → Step 1 r (report span r)
    ticking : (r : Reporter) → r.stopped ≡ false → Step 0 r (flush_sender r)
    processing :
        (r : Reporter) (item : ReporterQueueItem Span) (rest : List (ReporterQueueItem Span))
        → r.stopped ≡ false
        → r.queue ≡ item ∷ rest
        → Step 0 r (process_item item rest r)
    -- `Close` swaps `closed`, and `sendCloseEvent` sends when the queue has room.
    closing : (r : Reporter) → r.closed ≡ false → Step 0 r (record r { closed = true })
    sending_close :
        (r : Reporter)
        → r.closed ≡ true
        → length r.queue < r.queue_size
        → Step 0 r
            (record r { queue = r.queue ++ close_item ∷ []; queue_length = r.queue_length + 1 })

  -- Runs of a reporter, with the number of spans reported.
  pub data Run : ℕ → Reporter → Reporter → Type 0 where
    done : (r : Reporter) → Run 0 r r
    step : {m n : ℕ} {a b c : Reporter} → Run m a b → Step n b c → Run (m + n) a c
