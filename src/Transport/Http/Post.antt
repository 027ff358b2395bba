-- ===== src/Transport/Http/Post.antt =====
-- The requests of the HTTP transport, described apart from its code: one POST for a batch, and what
-- Append does with a span.
use jaeger_client_go.Base.{
  ℕ, ◌≡◌, refl, inl, inr, leb, Bool, true, false, if◌then◌else◌, Bytes, codes, Map, insert_all,
  Option, Bool-cases, List, [], ◌∷◌, ◌++◌, none, some, Option-cases, length, length-append, arith,
}
use jaeger_client_go.Transport.{Sent}
use jaeger_client_go.Transport.Http.{Collector, HttpTransport, send, flush, append}

module _ {Span : Type 0} (C : Collector Span) where
  -- whether a response is a failure
  abbrev pub refused : Option (ℕ × Bool) → Bool
  refused none = true
  refused (some response) = leb 400 response.0

  -- where and how a transport posts
  abbrev pub Address : Type 0
  Address = Bytes × Map Bytes × Option (Bytes × Bytes)

  abbrev pub address : HttpTransport C → Address
  address c = (c.url, c.headers, c.http_credentials)

  -- One POST of a batch: the network after it, and whether it failed.
  abbrev pub post : Address → Option C.Process → List C.ThriftSpan → C.Net → C.Net × Bool
  post (url, headers, credentials) process batch net = elim (C.serialize process batch) [
    | none ↦ (net, true)
    | some body ↦
        let r = C.do_request net (record {
          url = url;
          body = body;
          header = insert_all ((codes "Content-Type", codes "application/x-thrift") ∷ []) headers;
          basic_auth = credentials;
        }) in
        if C.is_url url then (r.0, refused (r.1)) else (net, true)
  ]

  send-post :
      (c : HttpTransport C)
      → ((send C c).0 ≡ record c { net = (post (address c) c.process c.spans c.net).0 })
        × ((send C c).1 ≡ (post (address c) c.process c.spans c.net).1)
  unfolding send
  send-post c = elim (Option-cases (C.serialize c.process c.spans)) [
    | inl e ↦ rw (e, send, post) (refl, refl)
    | inr (body, e) ↦ elim (Bool-cases (C.is_url c.url)) [
      | inl u ↦ rw (e, u, send, post) (refl, refl)
      | inr u ↦ rw (e, u, send, post) (refl, refl)
    ]
  ]

  -- Batches posted one after the other, with what is told of each.
  abbrev pub post_all :
      Address → Option C.Process → List (List C.ThriftSpan) → C.Net → C.Net × List Sent
  post_all a process [] net = (net, [])
  post_all a process (batch ∷ batches) net =
      let r = post a process batch net in
      let rest = post_all a process batches (r.0) in
      (rest.0, record { count = length batch; failed = r.1 } ∷ rest.1)

  -- the process of a transport that is given a span
  abbrev pub process_with : HttpTransport C → Span → C.Process
  process_with c x = elim c.process [ none ↦ C.build_process x | some p ↦ p ]

  -- and that of one that is given some spans
  abbrev pub process_of : HttpTransport C → List Span → Option C.Process
  process_of c [] = c.process
  process_of c (x ∷ xs) = some (process_with c x)

  pub process_of-some :
      (c : HttpTransport C) (p : C.Process) (xs : List Span)
      → c.process ≡ some p
      → process_of c xs ≡ some p
  process_of-some c p [] e = e
  process_of-some c p (x ∷ xs) e = rw e refl

  -- a transport with one more span, before it is full
  abbrev pub given : HttpTransport C → Span → HttpTransport C
  given c x = record c { process = some (process_with c x); spans = c.spans ++ C.build_span x ∷ [] }

  -- and one that has posted its batch
  abbrev pub posted : HttpTransport C → Span → HttpTransport C × Sent
  posted c x =
      let r = post (address c) (some (process_with c x)) (c.spans ++ C.build_span x ∷ []) c.net in
      (
        record c { process = some (process_with c x); spans = []; net = r.0 },
        record { count = length (c.spans ++ C.build_span x ∷ []); failed = r.1 },
      )

  known-given :
      (c : HttpTransport C) (x : Span)
      → record c {
        process = elim c.process [ none ↦ some (C.build_process x) | some p ↦ some p ];
        spans = c.spans ++ C.build_span x ∷ [];
      }
        ≡ given c x
  known-given c x = elim (Option-cases c.process) [ inl e ↦ rw e refl | inr (p, e) ↦ rw e refl ]

  flush-given : (c : HttpTransport C) (x : Span) → flush C (given c x) ≡ posted c x
  unfolding flush
  flush-given c x =
      let (state, failed) = send-post (given c x) in
      rw (length-append c.spans (C.build_span x ∷ []), state, failed) (ground (arith))

  -- The two outcomes of a call.
  pub append_lem :
      (c : HttpTransport C) (x : Span)
      → append C c x ≡ (
          if leb c.batch_size (length (c.spans ++ C.build_span x ∷ []))
          then posted c x
          else (given c x, record { count = 0; failed = false }))
  unfolding append
  append_lem c x = rw (known-given c x, flush-given c x, append) refl
