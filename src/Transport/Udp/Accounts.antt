-- ===== src/Transport/Udp/Accounts.antt =====
-- The counts of the datagram sender.
use jaeger_client_go.Base.{
  ℕ, ◌+◌, ◌≤◌, if◌then◌else◌, List, [], ◌∷◌, ◌++◌, none, some, length, ◌≡◌, refl, sym, ap, ◌∙◌, ◌⊎◌,
  arith,
}
use jaeger_client_go.Transport.{IsCounting}
use jaeger_client_go.Transport.Udp.{
  Agent, Emit, UdpSender, set_process, reset_buffers, flush, append_span, append, udp_transport,
}
use jaeger_client_go.Base.{length-append}

module _ {Span : Type 0} (A : Agent Span) where
  abbrev pub total_size : List A.ThriftSpan → ℕ
  total_size [] = 0
  total_size (x ∷ xs) = A.size_of_span x + total_size xs

  total_size-append :
      (xs ys : List A.ThriftSpan) → total_size (xs ++ ys) ≡ total_size xs + total_size ys
  total_size-append [] ys = omega arith
  total_size-append (x ∷ xs) ys = omega (arith, total_size-append xs ys)

  total_size-empty : (xs : List A.ThriftSpan) → length xs ≡ 0 → total_size xs ≡ 0
  total_size-empty [] e = refl
  total_size-empty (x ∷ xs) e = omega arith

  -- A process has been built before the first span is buffered.
  abbrev pub HasProcess : UdpSender A → Type 0
  HasProcess s = elim s.process [
    | none ↦ (s.span_buffer ≡ []) × (s.process_byte_size ≡ 0)
    | some p ↦ Unit {0}
  ]

  -- The byte count is the size of the process and of the spans in the buffer, and it is within the
  -- limit unless there is at most one span.
  abbrev pub IsPacked : UdpSender A → Type 0
  IsPacked s =
      (s.byte_buffer_size ≡ s.process_byte_size + total_size s.span_buffer)
      × ((s.byte_buffer_size ≤ s.max_span_bytes) ⊎ (length s.span_buffer ≤ 1))

  HasProcess-some : (s : UdpSender A) (p : A.Process) → s.process ≡ some p → HasProcess s
  HasProcess-some s p e = ground arith

  set_process_fits :
      (s : UdpSender A) (x : Span)
      → HasProcess s
      → (s.byte_buffer_size ≤ s.max_span_bytes) ⊎ (length s.span_buffer ≤ 1)
      → ((set_process A s x).byte_buffer_size ≤ (set_process A s x).max_span_bytes)
        ⊎ (length (set_process A s x).span_buffer ≤ 1)
  unfolding set_process
  set_process_fits s x has fits = ground arith

  set_process_sizes :
      (s : UdpSender A) (x : Span)
      → HasProcess s
      → s.byte_buffer_size ≡ s.process_byte_size + total_size s.span_buffer
      → (set_process A s x).byte_buffer_size
        ≡ (set_process A s x).process_byte_size + total_size (set_process A s x).span_buffer
  unfolding set_process
  set_process_sizes s x has sum = ground arith

  set_process_process :
      (s : UdpSender A) (x : Span)
      → (set_process A s x).process
        ≡ some (elim s.process [ none ↦ A.build_process x | some p ↦ p ])
  unfolding set_process
  set_process_process s x = ground arith

  set_process_lem :
      (s : UdpSender A) (x : Span)
      → ((set_process A s x).span_buffer ≡ s.span_buffer)
        × ((set_process A s x).too_large_dropped_spans + (set_process A s x).failed_to_emit_spans
            ≡ s.too_large_dropped_spans + s.failed_to_emit_spans)
  unfolding set_process
  set_process_lem s x = ground arith

module _ {Span : Type 0} (A : Agent Span) (emit : Emit A) where
  pub flush_counts :
      (s : UdpSender A)
      → length s.span_buffer ≡ length (flush A emit s).0.span_buffer + (flush A emit s).1.count
  unfolding flush reset_buffers
  flush_counts s = ground arith

  flush_losses :
      (s : UdpSender A)
      → (flush A emit s).0.too_large_dropped_spans + (flush A emit s).0.failed_to_emit_spans
        ≡ (s.too_large_dropped_spans + s.failed_to_emit_spans)
          + (if (flush A emit s).1.failed then (flush A emit s).1.count else 0)
  unfolding flush reset_buffers
  flush_losses s = ground arith

  append_span_counts :
      (s : UdpSender A) (x : Span)
      → length s.span_buffer + 1
        ≡ length (append_span A emit s x).0.span_buffer + (append_span A emit s x).1.count
  unfolding append_span flush reset_buffers
  append_span_counts s x = ground (arith, length-append s.span_buffer (A.build_span x ∷ []))

  append_span_losses :
      (s : UdpSender A) (x : Span)
      → (append_span A emit s x).0.too_large_dropped_spans
          + (append_span A emit s x).0.failed_to_emit_spans
        ≡ (s.too_large_dropped_spans + s.failed_to_emit_spans)
          + (if (append_span A emit s x).1.failed then (append_span A emit s x).1.count else 0)
  unfolding append_span flush reset_buffers
  append_span_losses s x = ground (arith, length-append s.span_buffer (A.build_span x ∷ []))

  append_span_sizes :
      (s : UdpSender A) (x : Span)
      → s.byte_buffer_size ≡ s.process_byte_size + total_size A s.span_buffer
      → (append_span A emit s x).0.byte_buffer_size
        ≡ (append_span A emit s x).0.process_byte_size
          + total_size A (append_span A emit s x).0.span_buffer
  unfolding append_span flush reset_buffers
  append_span_sizes s x sum = ground (
    arith,
    total_size-append A s.span_buffer (A.build_span x ∷ []),
    total_size-empty A s.span_buffer,
  )

  append_span_fits :
      (s : UdpSender A) (x : Span)
      → s.byte_buffer_size ≡ s.process_byte_size + total_size A s.span_buffer
      → (s.byte_buffer_size ≤ s.max_span_bytes) ⊎ (length s.span_buffer ≤ 1)
      → ((append_span A emit s x).0.byte_buffer_size ≤ (append_span A emit s x).0.max_span_bytes)
        ⊎ (length (append_span A emit s x).0.span_buffer ≤ 1)
  unfolding append_span flush reset_buffers
  append_span_fits s x sum fits = ground (arith, length-append s.span_buffer (A.build_span x ∷ []))

  append_span_process :
      (s : UdpSender A) (x : Span) → (append_span A emit s x).0.process ≡ s.process
  unfolding append_span flush reset_buffers
  append_span_process s x = ground arith

  -- `Append` leaves the byte count of the sender exact, if it was, and a buffer whose bytes exceed
  -- the limit has at most one span, if that was so; and the process is known when there are spans.
  pub append-IsPacked :
      (s : UdpSender A) (x : Span)
      → HasProcess A s
      → IsPacked A s
      → HasProcess A (append A emit s x).0 × IsPacked A (append A emit s x).0
  unfolding append
  append-IsPacked s x has (sum, fits) =
      let ready = set_process A s x in
      let ready_sum = set_process_sizes A s x has sum in
      (
        HasProcess-some A (append A emit s x).0 _
            (append_span_process ready x ∙ set_process_process A s x),
        (
          append_span_sizes ready x ready_sum,
          append_span_fits ready x ready_sum (set_process_fits A s x has fits),
        ),
      )

  -- In every case of `Append` the span is in the buffer, or in the count of the call together with
  -- the spans that leave the buffer; and the two counters of losses grow by the count of the call
  -- if it fails, and not otherwise.
  pub append_lem :
      (s : UdpSender A) (x : Span)
      → (length s.span_buffer + 1
          ≡ length (append A emit s x).0.span_buffer + (append A emit s x).1.count)
        × ((append A emit s x).0.too_large_dropped_spans
              + (append A emit s x).0.failed_to_emit_spans
            ≡ (s.too_large_dropped_spans + s.failed_to_emit_spans)
              + (if (append A emit s x).1.failed then (append A emit s x).1.count else 0))
  unfolding append
  append_lem s x =
      let (buffer, losses) = set_process_lem A s x in
      (
        ap (λ b. length b + 1) (sym buffer) ∙ append_span_counts (set_process A s x) x,
        append_span_losses (set_process A s x) x
            ∙ ap
                (λ n.
                  n
                  + (if (append_span A emit (set_process A s x) x).1.failed
                      then (append_span A emit (set_process A s x) x).1.count
                      else 0))
                losses,
      )

  -- The sender keeps count of the spans it is given.
  abbrev pub udp_counts : IsCounting (udp_transport A emit)
  udp_counts = record {
    buffered = λ s. length s.span_buffer;
    append_counts = λ s x. (append_lem s x).0;
    flush_counts = flush_counts;
  }
