-- ===== src/Conversion/Zipkin/Peer.antt =====
-- zipkin_thrift_span.go: the span that is converted, and the tags that tell its kind and its peer.
use jaeger_client_go.Base.{
  ℕ, ◌-◌, ◌%◌, ◌^◌, ◌==◌, ltb, ◌||◌, not, Bool, false, if◌then◌else◌, List, [], ◌∷◌, ◌++◌, Option,
  none, some, Bytes, codes, bytes_eq,
}
use jaeger_client_go.Base.Integers.{ℤ, pos, negsuc}
use jaeger_client_go.Conversion.{
  Value, string, span_kind, int, int32, uint16, uint32, Tag, SpanData, TracerData,
}
use jaeger_client_go.Conversion.Ip.{ip_ok, ip_err, parse_ip_to_uint32, parse_port}

pub record Endpoint : Type 0 where
  pub ipv4 : ℤ
  pub port : ℤ
  pub service_name : Bytes

-- The span, which the conversion changes, with what it collects.
pub record ZipkinSpan (Num Field : Type 0) : Type 0 where
  pub span : SpanData Num Field
  pub peer : Endpoint
  pub kind : Bytes

-- `int32(v)` of a uint32, `int16(v)` of a uint16 and of an int
unfoldable pub to_int32 : ℕ → ℤ
to_int32 v = if ltb v (2 ^ 31) then pos v else negsuc (2 ^ 32 - 1 - v)

unfoldable pub to_int16 : ℕ → ℤ
to_int16 v = if ltb v (2 ^ 15) then pos v else negsuc (2 ^ 16 - 1 - v)

unfoldable pub int_to_int16 : ℤ → ℤ
int_to_int16 (pos n) = to_int16 (n % 2 ^ 16)
int_to_int16 (negsuc n) = to_int16 ((2 ^ 16 - 1) - n % 2 ^ 16)

abbrev is_zero : ℤ → Bool
is_zero (pos n) = n == 0
is_zero (negsuc n) = false

abbrev is_kind : Bytes → Bytes → Bool
is_kind kind name = bytes_eq kind name

module _ {Num Field : Type 0} where
  unfoldable pub set_span_kind : ZipkinSpan Num Field → Value Num → ZipkinSpan Num Field
  set_span_kind s (string val) = record s { kind = val }
  set_span_kind s (span_kind val) = record s { kind = val }
  set_span_kind s _ = s

  abbrev pub with_ipv4 : ZipkinSpan Num Field → ℤ → ZipkinSpan Num Field
  with_ipv4 s ip = record s { peer = record s.peer { ipv4 = ip } }

  abbrev pub with_port : ZipkinSpan Num Field → ℤ → ZipkinSpan Num Field
  with_port s port = record s { peer = record s.peer { port = port } }

  unfoldable pub set_peer_port : ZipkinSpan Num Field → Value Num → ZipkinSpan Num Field
  set_peer_port s (string val) = elim (parse_port val) [
    | none ↦ s
    | some port ↦ with_port s (to_int16 port)
  ]
  set_peer_port s (uint16 val) = with_port s (to_int16 val)
  set_peer_port s (int val) = with_port s (int_to_int16 val)
  set_peer_port s _ = s

  unfoldable pub set_peer_service : ZipkinSpan Num Field → Value Num → ZipkinSpan Num Field
  set_peer_service s (string val) = record s { peer = record s.peer { service_name = val } }
  set_peer_service s _ = s

  unfoldable pub peer_defined : ZipkinSpan Num Field → Bool
  peer_defined s =
      not (bytes_eq s.peer.service_name [])
      || (not (is_zero s.peer.ipv4) || not (is_zero s.peer.port))

  unfoldable pub is_rpc : ZipkinSpan Num Field → Bool
  is_rpc s = bytes_eq s.kind (codes "client") || bytes_eq s.kind (codes "server")

  unfoldable pub is_rpc_client : ZipkinSpan Num Field → Bool
  is_rpc_client s = bytes_eq s.kind (codes "client")

-- whether `specialTagHandlers` has the key
unfoldable pub is_special : Bytes → Bool
is_special key =
    bytes_eq key (codes "span.kind")
    || (bytes_eq key (codes "peer.ipv4")
        || (bytes_eq key (codes "peer.port")
            || (bytes_eq key (codes "peer.service") || bytes_eq key (codes "ip"))))

abbrev pub new_zipkin_span : {Num Field : Type 0} → SpanData Num Field → ZipkinSpan Num Field
new_zipkin_span span = record {
  span = span;
  peer = record { ipv4 = pos 0; port = pos 0; service_name = [] };
  kind = [];
}

-- `strconv.Atoi` is the library's.
module _ {Num Field : Type 0} (atoi : Bytes → Option ℤ) where
  unfoldable pub set_peer_ipv4 : ZipkinSpan Num Field → Value Num → ZipkinSpan Num Field
  set_peer_ipv4 s (string val) = elim (parse_ip_to_uint32 atoi val) [
    | ip_ok ip ↦ with_ipv4 s (to_int32 ip)
    | ip_err e ↦ s
  ]
  set_peer_ipv4 s (uint32 val) = with_ipv4 s (to_int32 val)
  set_peer_ipv4 s (int32 val) = with_ipv4 s val
  set_peer_ipv4 s _ = s

  -- the handler of a special key
  unfoldable pub handle_special : Bytes → ZipkinSpan Num Field → Value Num → ZipkinSpan Num Field
  handle_special key s value =
      if bytes_eq key (codes "span.kind")
      then set_span_kind s value
      else if bytes_eq key (codes "peer.ipv4")
      then set_peer_ipv4 s value
      else if bytes_eq key (codes "peer.port")
      then set_peer_port s value
      else if bytes_eq key (codes "peer.service")
      then set_peer_service s value
      else s

  -- the loop of `handleSpecialTags`: the tags that stay, with what the others changed
  unfoldable pub filter_tags :
      ZipkinSpan Num Field → List (Tag Num) → List (Tag Num) → ZipkinSpan Num Field × List (Tag Num)
  filter_tags s filtered [] = (s, filtered)
  filter_tags s filtered (tag ∷ tags) =
      let special = is_special tag.key in
      filter_tags (if special then handle_special tag.key s tag.value else s)
        (if special then filtered else filtered ++ tag ∷ []) tags

  unfoldable pub handle_special_tags : TracerData Num → ZipkinSpan Num Field → ZipkinSpan Num Field
  handle_special_tags tracer s =
      let r =
        filter_tags s []
          (if s.span.first_in_process then s.span.tags ++ tracer.tags else s.span.tags) in
      record (r.0) { span = record s.span { tags = r.1 } }
