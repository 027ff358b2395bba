-- ===== src/Transport/Http.antt =====
-- transport/http.go and transport/zipkin/http.go: transports that post batches of spans to a
-- collector.
pub mod Counts
pub mod Post
pub mod Batches
use jaeger_client_go.Base.{
  ℕ, leb, ◌==◌, Bool, true, false, if◌then◌else◌, List, [], ◌∷◌, ◌++◌, Option, none, some, Bytes,
  codes, Map, insert, insert_all, length,
}
use jaeger_client_go.Transport.{Transport, Sent}

-- A request; the body is what the thrift library makes of the batch. The names of headers stay as
-- they are given.
pub record Request (Body : Type 0) : Type 0 where
  pub url : Bytes
  pub body : Body
  pub header : Map Bytes
  pub basic_auth : Option (Bytes × Bytes)

-- What the client of the standard library does with a request: its state after it, and the status
-- of the response and whether its body could be read, or no response.
abbrev pub Client : Type 0 → Type 0 → Type 0
Client Net Body = Net → Request Body → Net × Option (ℕ × Bool)

-- The thrift structs and their serialization, which may fail; and `http.NewRequest`, which fails on
-- some URLs.
pub record Collector (Span : Type 0) : Type 1 where
  pub Process : Type 0
  pub ThriftSpan : Type 0
  pub Body : Type 0
  pub Net : Type 0
  pub build_process : Span → Process
  pub build_span : Span → ThriftSpan
  pub serialize : Option Process → List ThriftSpan → Option Body
  pub is_url : Bytes → Bool
  pub do_request : Client Net Body

module _ {Span : Type 0} (C : Collector Span) where
  pub record HttpTransport : Type 0 where
    pub url : Bytes
    pub batch_size : ℕ
    pub spans : List C.ThriftSpan
    pub process : Option C.Process
    pub http_credentials : Option (Bytes × Bytes)
    pub headers : Map Bytes
    pub net : C.Net

  -- the options that set fields
  pub data HttpOption : Type 0 where
    http_batch_size : ℕ → HttpOption
    http_basic_auth : Bytes → Bytes → HttpOption
    http_headers : Map Bytes → HttpOption

  unfoldable pub apply_option : HttpTransport → HttpOption → HttpTransport
  apply_option c (http_batch_size n) = record c { batch_size = n }
  apply_option c (http_basic_auth username password) = record c {
    http_credentials = some (username, password);
  }
  apply_option c (http_headers headers) = record c { headers = headers }

  unfoldable pub apply_options : HttpTransport → List HttpOption → HttpTransport
  apply_options c [] = c
  apply_options c (o ∷ options) = apply_options (apply_option c o) options

  unfoldable pub new_http_transport : Bytes → List HttpOption → C.Net → HttpTransport
  new_http_transport url options net =
      apply_options
        (record {
          url = url;
          batch_size = 100;
          spans = [];
          process = none;
          http_credentials = none;
          headers = [];
          net = net;
        })
        options

  abbrev pub content_type : Map Bytes
  content_type = (codes "Content-Type", codes "application/x-thrift") ∷ []

  -- A response of 400 or more is an error.
  abbrev pub is_error : ℕ → Bool
  is_error status = leb 400 status

  -- `send`: whether it failed
  unfoldable pub send : HttpTransport → HttpTransport × Bool
  send c = elim (C.serialize c.process c.spans) [
    | none ↦ (c, true)
    | some body ↦
        let r = C.do_request c.net (record {
          url = c.url;
          body = body;
          header = insert_all content_type c.headers;
          basic_auth = c.http_credentials;
        }) in
        if C.is_url c.url
        then (
          record c { net = r.0 },
          elim (r.1) [ none ↦ true | some response ↦ is_error (response.0) ],
        )
        else (c, true)
  ]

  unfoldable pub flush : HttpTransport → HttpTransport × Sent
  flush c =
      let count = length c.spans in
      let r = send c in
      if count == 0
      then (c, record { count = 0; failed = false })
      else (record (r.0) { spans = [] }, record { count = count; failed = r.1 })

  unfoldable pub append : HttpTransport → Span → HttpTransport × Sent
  append c span =
      let known : HttpTransport = record c {
        process = elim c.process [ none ↦ some (C.build_process span) | some p ↦ some p ];
        spans = c.spans ++ C.build_span span ∷ [];
      } in
      let flushed = flush known in
      if leb c.batch_size (length known.spans)
      then flushed
      else (known, record { count = 0; failed = false })

  abbrev pub http_transport : Transport Span HttpTransport
  http_transport = record { append = append; flush = flush }

-- The transport for Zipkin: it sends no process and no headers of its own, and fails too when the
-- response cannot be read.
module _ {Span : Type 0} (C : Collector Span) where
  unfoldable pub zipkin_send : HttpTransport C → HttpTransport C × Bool
  zipkin_send c = elim (C.serialize none c.spans) [
    | none ↦ (c, true)
    | some body ↦
        let r = C.do_request c.net (record {
          url = c.url;
          body = body;
          header = content_type C;
          basic_auth = c.http_credentials;
        }) in
        if C.is_url c.url
        then (
          record c { net = r.0 },
          elim (r.1) [
            | none ↦ true
            | some response ↦ if response.1 then is_error C (response.0) else true
          ],
        )
        else (c, true)
  ]

  unfoldable pub zipkin_flush : HttpTransport C → HttpTransport C × Sent
  zipkin_flush c =
      let count = length c.spans in
      let r = zipkin_send c in
      if count == 0
      then (c, record { count = 0; failed = false })
      else (record (r.0) { spans = [] }, record { count = count; failed = r.1 })

  unfoldable pub zipkin_append : HttpTransport C → Span → HttpTransport C × Sent
  zipkin_append c span =
      let batched : HttpTransport C = record c { spans = c.spans ++ C.build_span span ∷ [] } in
      let flushed = zipkin_flush batched in
      if leb c.batch_size (length batched.spans)
      then flushed
      else (batched, record { count = 0; failed = false })

  abbrev pub zipkin_transport : Transport Span (HttpTransport C)
  zipkin_transport = record { append = zipkin_append; flush = zipkin_flush }
