-- ===== src/Transport/Udp.antt =====
-- transport_udp.go: the sender that packs spans into datagrams for the agent.
pub mod Accounts
use jaeger_client_go.Base.{
  ℕ, zero, suc, ◌+◌, ◌≤◌, leb, ltb, ◌==◌, Bool, true, false, if◌then◌else◌, List, [], ◌∷◌, ◌++◌,
  Option, none, some, length,
}
use jaeger_client_go.Transport.{Transport, Sent}

-- The thrift structs, which jaeger_thrift_span.go builds and the thrift library serializes, and the
-- client that sends them.
pub record Agent (Span : Type 0) : Type 1 where
  pub Process : Type 0
  pub ThriftSpan : Type 0
  pub Client : Type 0
  pub build_process : Span → Process
  pub build_span : Span → ThriftSpan
  pub size_of_process : Process → ℕ
  pub size_of_span : ThriftSpan → ℕ

pub record ClientStats : Type 0 where
  pub full_queue_dropped_spans : ℕ
  pub too_large_dropped_spans : ℕ
  pub failed_to_emit_spans : ℕ

pub record Batch (Process ThriftSpan : Type 0) : Type 0 where
  pub process : Option Process
  pub spans : List ThriftSpan
  pub seq_no : ℕ
  pub stats : ClientStats

module _ {Span : Type 0} (A : Agent Span) where
  abbrev pub Emit : Type 0
  Emit = A.Client → Batch A.Process A.ThriftSpan → A.Client × Bool

  -- `max_span_bytes` is the size of a packet less the overhead of 70 bytes, for packets of that
  -- size at least; `full_queue_dropped` is what the reporter's statistics tell, 0 without a
  -- reporter.
  pub record UdpSender : Type 0 where
    pub client : A.Client
    pub max_span_bytes : ℕ
    pub byte_buffer_size : ℕ
    pub span_buffer : List A.ThriftSpan
    pub process : Option A.Process
    pub process_byte_size : ℕ
    pub full_queue_dropped : ℕ
    pub batch_seq_no : ℕ
    pub too_large_dropped_spans : ℕ
    pub failed_to_emit_spans : ℕ

  unfoldable pub make_stats : UdpSender → ClientStats
  make_stats s = record {
    full_queue_dropped_spans = s.full_queue_dropped;
    too_large_dropped_spans = s.too_large_dropped_spans;
    failed_to_emit_spans = s.failed_to_emit_spans;
  }

  unfoldable pub reset_buffers : UdpSender → UdpSender
  reset_buffers s = record s { span_buffer = []; byte_buffer_size = s.process_byte_size }

  unfoldable pub set_process : UdpSender → Span → UdpSender
  set_process s span = elim s.process [
    | some p ↦ s
    | none ↦
        let p = A.build_process span in
        let size = A.size_of_process p in
        record s {
          process = some p;
          process_byte_size = size;
          byte_buffer_size = s.byte_buffer_size + size;
        }
  ]

module _ {Span : Type 0} (A : Agent Span) (emit : Emit A) where
  unfoldable pub flush : UdpSender A → UdpSender A × Sent
  unfolding make_stats reset_buffers
  flush s =
      let n = length s.span_buffer in
      let seq_no = s.batch_seq_no + 1 in
      let numbered : UdpSender A = record s { batch_seq_no = seq_no } in
      let (client, failed) = emit s.client (record {
        process = s.process;
        spans = s.span_buffer;
        seq_no = seq_no;
        stats = make_stats A numbered;
      }) in
      let sent = reset_buffers A (record numbered { client = client }) in
      if n == 0 then (s, record { count = 0; failed = false }) else (
        if failed
            then record sent { failed_to_emit_spans = sent.failed_to_emit_spans + n }
            else sent,
        record { count = n; failed = failed },
      )

  -- the rest of `Append` once there is a process
  unfoldable pub append_span : UdpSender A → Span → UdpSender A × Sent
  append_span s span =
      let thrift_span = A.build_span span in
      let span_size = A.size_of_span thrift_span in
      let buffered : UdpSender A = record s {
        byte_buffer_size = s.byte_buffer_size + span_size;
        span_buffer = s.span_buffer ++ thrift_span ∷ [];
      } in
      let (flushed, result) =
        flush (record s { byte_buffer_size = s.byte_buffer_size + span_size }) in
      if ltb s.max_span_bytes span_size
      then (
        record s { too_large_dropped_spans = s.too_large_dropped_spans + 1 },
        record { count = 1; failed = true },
      )
      else if leb (s.byte_buffer_size + span_size) s.max_span_bytes
      then if ltb (s.byte_buffer_size + span_size) s.max_span_bytes
        then (buffered, record { count = 0; failed = false })
        else flush buffered
      else (
        record flushed {
          span_buffer = flushed.span_buffer ++ thrift_span ∷ [];
          byte_buffer_size = span_size + flushed.process_byte_size;
        },
        result,
      )

  unfoldable pub append : UdpSender A → Span → UdpSender A × Sent
  append s span = append_span (set_process A s span) span

  -- The sender as a transport.
  abbrev pub udp_transport : Transport Span (UdpSender A)
  udp_transport = record { append = append; flush = flush }
