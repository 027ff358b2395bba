-- ===== src/Tests/Sending.antt =====
-- The datagram sender and the reporter.
use jaeger_client_go.Base.{
  ℕ, ◌+◌, ◌<◌, ◌≡◌, ◌⊎◌, refl, inl, true, false, if◌then◌else◌, List, [], ◌∷◌, ◌++◌, none, some,
  codes, All, length, arith,
}
use jaeger_client_go.Transport.{Transport, Sent}
use jaeger_client_go.Transport.Udp.{
  Agent, Emit, UdpSender, reset_buffers, flush, append, udp_transport,
}
use jaeger_client_go.Transport.Http.{Collector, HttpTransport}
use jaeger_client_go.Transport.Http.Batches.{Posts, append_all, total, append_all_lem}
use jaeger_client_go.Transport.Udp.Accounts.{
  HasProcess, IsPacked, append-IsPacked, append_lem, udp_counts,
}
use jaeger_client_go.Reporter.{
  RemoteReporter, new_remote_reporter, report, process_item, span_item, close_item, reporting,
  processing, closing, sending_close, Run, done, step,
}
use jaeger_client_go.Reporter.Conservation.{Accounts, References, Run-conserves}
use jaeger_client_go.Reporter.Close.{Processing, closing_queue, close_drains}

-- a span is its size, and the process takes 5 bytes
abbrev agent : Agent ℕ
agent = record {
  Process = Unit {0};
  ThriftSpan = ℕ;
  Client = List ℕ;
  build_process = λ x. tt;
  build_span = λ x. x;
  size_of_process = λ p. 5;
  size_of_span = λ x. x;
}

-- a client that records the number of spans in each batch and reports no failure
abbrev emit : Emit agent
emit client batch = (length batch.spans ∷ client, false)

abbrev sender : UdpSender agent
sender = record {
  client = [];
  max_span_bytes = 20;
  byte_buffer_size = 0;
  span_buffer = [];
  process = none;
  process_byte_size = 0;
  full_queue_dropped = 0;
  batch_seq_no = 0;
  too_large_dropped_spans = 0;
  failed_to_emit_spans = 0;
}

-- A span of 18 bytes is accepted, though with the process it exceeds the limit of 20.
append-IsPacked_example :
    HasProcess agent (append agent emit sender 18).0
    × IsPacked agent (append agent emit sender 18).0
append-IsPacked_example =
    append-IsPacked agent emit sender 18 (refl, refl) (refl, inl (omega arith))

append_lem_example :
    (length sender.span_buffer + 1
      ≡ length (append agent emit sender 30).0.span_buffer + (append agent emit sender 30).1.count)
    × ((append agent emit sender 30).0.too_large_dropped_spans
          + (append agent emit sender 30).0.failed_to_emit_spans
        ≡ (sender.too_large_dropped_spans + sender.failed_to_emit_spans)
          + (if (append agent emit sender 30).1.failed
              then (append agent emit sender 30).1.count
              else 0))
append_lem_example = append_lem agent emit sender 30

abbrev transport : Transport ℕ (UdpSender agent)
transport = udp_transport agent emit

abbrev new_reporter : RemoteReporter ℕ (UdpSender agent)
new_reporter = new_remote_reporter 1 sender

-- two reports to a queue for one span, then the go-routine takes the span
abbrev reported : RemoteReporter ℕ (UdpSender agent)
reported = report transport 8 (report transport 7 new_reporter)

abbrev processed : RemoteReporter ℕ (UdpSender agent)
processed = process_item transport (span_item 7) [] reported

one_queued : reported.queue ≡ span_item 7 ∷ []
unfolding report new_remote_reporter
one_queued = refl

still_running : reported.stopped ≡ false
unfolding report new_remote_reporter
still_running = refl

run : Run transport (0 + 1 + 1 + 0) new_reporter processed
run =
    step
      (step (step (done new_reporter) (reporting 7 new_reporter))
        (reporting 8 (report transport 7 new_reporter)))
      (processing reported (span_item 7) [] still_running one_queued)

Run-conserves_example :
    Accounts transport (udp_counts agent emit) (0 + 1 + 1 + 0) processed
    × References transport (udp_counts agent emit) processed
Run-conserves_example =
    Run-conserves transport (udp_counts agent emit) 1 sender (0 + 1 + 1 + 0) processed refl run

-- one span is queued, and then the event of Close
abbrev report_one : RemoteReporter ℕ (UdpSender agent)
report_one = report transport 7 (new_remote_reporter 2 sender)

abbrev closed : RemoteReporter ℕ (UdpSender agent)
closed = record report_one { closed = true }

abbrev close_sent : RemoteReporter ℕ (UdpSender agent)
close_sent = record closed {
  queue = closed.queue ++ close_item ∷ [];
  queue_length = closed.queue_length + 1;
}

one_reported : (closed.queue ≡ span_item 7 ∷ []) × (closed.queue_size ≡ 2)
unfolding report new_remote_reporter
one_reported = (refl, refl)

open_yet : (report_one.closed ≡ false) × (close_sent.stopped ≡ false)
unfolding report new_remote_reporter
open_yet = (refl, refl)

has_room : length closed.queue < closed.queue_size
unfolding report new_remote_reporter
has_room = omega arith

to_close : Run transport 1 (new_remote_reporter 2 sender) close_sent
to_close =
    step
      (step
        (step (done (new_remote_reporter 2 sender)) (reporting 7 (new_remote_reporter 2 sender)))
        (closing report_one (open_yet.0)))
      (sending_close closed refl has_room)

queued_close : close_sent.queue ≡ closing_queue transport (udp_counts agent emit) (7 ∷ [])
unfolding report new_remote_reporter
queued_close = refl

flush_empties : (s : UdpSender agent) → length (flush agent emit s).0.span_buffer ≡ 0
unfolding flush reset_buffers
flush_empties s = ground arith

close_drains_example :
    (r' : RemoteReporter ℕ (UdpSender agent)) × Processing transport
      (udp_counts agent emit)
      close_sent
      r'
    × (r'.stopped ≡ true)
    × (r'.queue ≡ [])
    × (1 ≡ (r'.reporter_success + r'.reporter_failure) + r'.reporter_dropped)
close_drains_example =
    close_drains transport (udp_counts agent emit) 2 sender 1 close_sent (7 ∷ []) refl flush_empties
      to_close (open_yet.1) queued_close

-- a collector whose client keeps the sizes of the batches, and answers with 503
abbrev collector : Collector ℕ
collector = record {
  Process = Unit {0};
  ThriftSpan = ℕ;
  Body = ℕ;
  Net = List ℕ;
  build_process = λ x. tt;
  build_span = λ x. x;
  serialize = λ p spans. some (length spans);
  is_url = λ u. true;
  do_request = λ net r. (r.body ∷ net, some (503, true));
}

abbrev poster : HttpTransport collector
poster = record {
  url = codes "http://localhost";
  batch_size = 2;
  spans = [];
  process = none;
  http_credentials = none;
  headers = [];
  net = [];
}

append_all_lem_example :
    (length (append_all collector poster (1 ∷ 2 ∷ 3 ∷ [])).0.spans < 2)
    × (0 + 3
        ≡ length (append_all collector poster (1 ∷ 2 ∷ 3 ∷ [])).0.spans
          + total collector (append_all collector poster (1 ∷ 2 ∷ 3 ∷ [])).1)
    × All
        (λ (r : Sent). (r.count ≡ 0) ⊎ (r.count ≡ 2))
        (append_all collector poster (1 ∷ 2 ∷ 3 ∷ [])).1
    × Posts collector poster (1 ∷ 2 ∷ 3 ∷ []) (append_all collector poster (1 ∷ 2 ∷ 3 ∷ []))
append_all_lem_example = append_all_lem collector poster (1 ∷ 2 ∷ 3 ∷ []) (omega arith)
