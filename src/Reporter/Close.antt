-- ===== src/Reporter/Close.antt =====
-- What the close event does to the queue.
use jaeger_client_go.Base.{ℕ, ◌+◌, ◌-◌, ◌≡◌, refl, ap, ◌∙◌, true, false, List, [], ◌∷◌, arith}
use mathlib.Core.Path.{subst}
use jaeger_client_go.Transport.{Transport, IsCounting}
use jaeger_client_go.Reporter.{
  ReporterQueueItem, span_item, close_item, new_remote_reporter, Reporter, flush_sender,
  process_span, process_item, processing, Run, step,
}
use jaeger_client_go.Reporter.Conservation.{queued, Run-conserves}

module _ {Span State : Type 0} (T : Transport Span State) (counts : IsCounting T) where
  -- the queue of these spans with the close event behind them
  abbrev pub closing_queue : List Span → List (ReporterQueueItem Span)
  closing_queue [] = close_item ∷ []
  closing_queue (x ∷ xs) = span_item x ∷ closing_queue xs

  process_span-queue :
      (x : Span) (r : Reporter T)
      → ((process_span T x r).queue ≡ r.queue) × ((process_span T x r).stopped ≡ r.stopped)
  unfolding process_span
  process_span-queue x r = (ground arith, ground arith)

  flush_sender-queue :
      (r : Reporter T)
      → ((flush_sender T r).queue ≡ r.queue) × ((flush_sender T r).sender ≡ (T.flush r.sender).0)
  unfolding flush_sender
  flush_sender-queue r = (ground arith, ground arith)

  -- Steps in which the go-routine takes an item from the queue, one after the other.
  pub data Processing : Reporter T → Reporter T → Type 0 where
    idle : (r : Reporter T) → Processing r r
    takes :
        {r' : Reporter T} (r : Reporter T) (item : ReporterQueueItem Span)
        (rest : List (ReporterQueueItem Span))
        → r.stopped ≡ false
        → r.queue ≡ item ∷ rest
        → Processing (process_item T item rest r) r'
        → Processing r r'

  -- They are steps of a run.
  Processing-goes_on : {n : ℕ} {a b c : Reporter T} → Processing b c → Run T n a b → Run T n a c
  Processing-goes_on (idle r) run = run
  Processing-goes_on {n = n} {a = a} (takes r item rest live e later) run =
      let same : n + 0 ≡ n = omega arith in
      Processing-goes_on later (
        subst (λ k. Run T k a (process_item T item rest r)) same
          (step run (processing r item rest live e)))

  -- a stopped reporter with nothing left
  abbrev pub Drained : Reporter T → Type 0
  Drained r = (r.stopped ≡ true) × (r.queue ≡ []) × (counts.buffered r.sender ≡ 0)

  drain :
      (spans : List Span) (r : Reporter T)
      → ((s : State) → counts.buffered (T.flush s).0 ≡ 0)
      → r.stopped ≡ false
      → r.queue ≡ closing_queue spans
      → (r' : Reporter T) × Processing r r' × Drained r'
  unfolding process_item
  drain [] r empties live e =
      let popped : Reporter T = record r { queue = []; queue_length = r.queue_length - 1 } in
      let (queue, sender) = flush_sender-queue popped in
      (
        process_item T close_item [] r,
        takes r close_item [] live e (idle _),
        (refl, queue, ap counts.buffered sender ∙ empties r.sender),
      )
  drain (x ∷ xs) r empties live e =
      let popped : Reporter T = record r {
        queue = closing_queue xs;
        queue_length = r.queue_length - 1;
      } in
      let (queue, stopped) = process_span-queue x popped in
      let (r', later, drained) =
        drain xs (process_item T (span_item x) (closing_queue xs) r) empties (stopped ∙ live)
          queue in
      (r', takes r (span_item x) (closing_queue xs) live e later, drained)

  -- Take a reporter that was new, has reported `n` spans in all and still runs, over a transport
  -- that keeps count and whose Flush empties its buffer, when Close has put its event behind the
  -- spans in the queue. From there the go-routine can go on by itself, taking one item after the
  -- other, until it has stopped with an empty queue; and then each of the `n` spans was a success,
  -- a failure or dropped.
  pub close_drains :
      (size : ℕ) (sender : State) (n : ℕ) (r : Reporter T) (spans : List Span)
      → counts.buffered sender ≡ 0
      → ((s : State) → counts.buffered (T.flush s).0 ≡ 0)
      → Run T n (new_remote_reporter size sender) r
      → r.stopped ≡ false
      → r.queue ≡ closing_queue spans
      → (r' : Reporter T) × Processing r r'
        × (r'.stopped ≡ true)
        × (r'.queue ≡ [])
        × (n ≡ (r'.reporter_success + r'.reporter_failure) + r'.reporter_dropped)
  close_drains size sender n r spans empty empties run live e =
      let (r', later, (stopped, queue, none_left)) = drain spans r empties live e in
      let (sum, held) =
        Run-conserves T counts size sender n r' empty (Processing-goes_on later run) in
      (r', later, stopped, queue, (omega (arith, sum, ap (λ q. queued q) queue, none_left)))
