-- ===== src/Reporter/Conservation.antt =====
-- What becomes of the spans that are reported.
use jaeger_client_go.Base.{ℕ, ◌+◌, ◌-◌, List, [], ◌∷◌, ◌++◌, ◌≡◌, refl, arith}
use jaeger_client_go.Transport.{Transport, IsCounting}
use jaeger_client_go.Reporter.{
  ReporterQueueItem, span_item, close_item, new_remote_reporter, Reporter, report, flush_sender,
  process_span, process_item, Step, reporting, ticking, processing, closing, sending_close, Run,
  done, step,
}

module _ {Span : Type 0} where
  -- the spans among the items of a queue
  abbrev pub queued : List (ReporterQueueItem Span) → ℕ
  queued [] = 0
  queued (span_item x ∷ rest) = 1 + queued rest
  queued (close_item ∷ rest) = queued rest

  queued-append :
      (xs ys : List (ReporterQueueItem Span)) → queued (xs ++ ys) ≡ queued xs + queued ys
  queued-append [] ys = omega arith
  queued-append (span_item x ∷ xs) ys = omega (arith, queued-append xs ys)
  queued-append (close_item ∷ xs) ys = queued-append xs ys

module _ {Span State : Type 0} (T : Transport Span State) (counts : IsCounting T) where
  -- Every one of `n` spans is sent, lost, dropped, in the queue or in the buffer of the transport.
  abbrev pub Accounts : ℕ → Reporter T → Type 0
  Accounts n r =
      n
      ≡ (r.reporter_success + r.reporter_failure)
        + (r.reporter_dropped + (queued r.queue + counts.buffered r.sender))

  -- The references that the reporter holds are those on the spans in the queue and on the spans
  -- dropped, and the two counts of dropped spans agree.
  abbrev pub References : Reporter T → Type 0
  References r =
      (r.references ≡ queued r.queue + r.reporter_dropped) × (r.dropped_count ≡ r.reporter_dropped)

  report-Accounts :
      (n : ℕ) (x : Span) (r : Reporter T)
      → Accounts n r
      → References r
      → Accounts (n + 1) (report T x r) × References (report T x r)
  unfolding report
  report-Accounts n x r a (b, c) = ground (arith, queued-append r.queue (span_item x ∷ []))

  flush-Accounts :
      (n : ℕ) (r : Reporter T)
      → Accounts n r
      → References r
      → Accounts n (flush_sender T r) × References (flush_sender T r)
  unfolding flush_sender
  flush-Accounts n r a (b, c) = ground (arith, counts.flush_counts r.sender)

  process_span-Accounts :
      (n : ℕ) (x : Span) (r : Reporter T)
      → n
        ≡ (r.reporter_success + r.reporter_failure)
          + (r.reporter_dropped + (1 + queued r.queue + counts.buffered r.sender))
      → r.references ≡ 1 + queued r.queue + r.reporter_dropped
      → r.dropped_count ≡ r.reporter_dropped
      → Accounts n (process_span T x r) × References (process_span T x r)
  unfolding process_span
  process_span-Accounts n x r a b c = ground (arith, counts.append_counts r.sender x)

  process_item-Accounts :
      (n : ℕ) (item : ReporterQueueItem Span) (rest : List (ReporterQueueItem Span))
      (r : Reporter T)
      → r.queue ≡ item ∷ rest
      → Accounts n r
      → References r
      → Accounts n (process_item T item rest r) × References (process_item T item rest r)
  unfolding process_item
  process_item-Accounts n (span_item x) rest r e a (b, c) =
      process_span-Accounts n x (record r { queue = rest; queue_length = r.queue_length - 1 })
        (rw e at a) (rw e at b) c
  process_item-Accounts n close_item rest r e a (b, c) =
      flush-Accounts n (record r { queue = rest; queue_length = r.queue_length - 1 }) (rw e at a)
        (rw e at b, c)

  Step-Accounts :
      {m n : ℕ} {r r' : Reporter T}
      → Step T n r r'
      → Accounts m r
      → References r
      → Accounts (m + n) r' × References r'
  Step-Accounts (reporting x r) a b = report-Accounts _ x r a b
  Step-Accounts {m = m} (ticking r live) a b =
      let (a', b') = flush-Accounts m r a b in (omega arith, b')
  Step-Accounts {m = m} (processing r item rest live e) a b =
      let (a', b') = process_item-Accounts m item rest r e a b in (omega arith, b')
  Step-Accounts (closing r open_yet) a b = (omega arith, b)
  Step-Accounts (sending_close r e room) a (b, c) =
      ground (arith, queued-append r.queue (close_item ∷ []))

  Run-Accounts :
      {n : ℕ} {r r' : Reporter T}
      → Run T n r r'
      → Accounts 0 r
      → References r
      → Accounts n r' × References r'
  Run-Accounts (done r) a b = (a, b)
  Run-Accounts (step run s) a b = let (a', b') = Run-Accounts run a b in Step-Accounts s a' b'

  -- After any run of a new reporter in which `n` spans are reported, over a transport that keeps
  -- count and starts with an empty buffer, each of them is counted once: as a success, a failure or
  -- dropped, or it is still in the queue or in the buffer of the transport. The references that the
  -- reporter still holds are one for each span in the queue and one for each span it has dropped.
  pub Run-conserves :
      (size : ℕ) (sender : State) (n : ℕ) (r : Reporter T)
      → counts.buffered sender ≡ 0
      → Run T n (new_remote_reporter size sender) r
      → Accounts n r × References r
  unfolding new_remote_reporter
  Run-conserves size sender n r empty run = Run-Accounts run (omega arith) (refl, refl)
