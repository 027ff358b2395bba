-- ===== src/Propagation/Binary/RoundTrip.antt =====
-- What the binary propagator injects, it extracts.
use jaeger_client_go.Base.{
  ℕ, ◌+◌, ◌^◌, ◌<◌, ◌≤◌, ◌≡◌, refl, ◌∙◌, [], ◌∷◌, ◌++◌, append_assoc, Bool, true, false, some,
  length, Bytes, Map, insert, IsMap, insert_all, insert_all-nil, All, arith,
}
use jaeger_client_go.Outcome.{ok, ◌>>=◌}
use jaeger_client_go.SpanContext.Flags.{SamplingState, fresh_state, set_flags, flags}
use jaeger_client_go.SpanContext.{SpanContext, States, state_of, empty_context}
use jaeger_client_go.Propagation.Binary.{
  be_bytes, extract_item, extract_items, extract_baggage, extract, inject_items, written,
  inject_baggage, inject,
}
use jaeger_client_go.Propagation.Binary.Numbers.{read_number-be_bytes, grow_and_copy-append}

-- a bytes.Buffer as the carrier: a write never fails
abbrev pub buffer_write : Bytes → Bytes → Bytes × Bool
buffer_write w s = (w ++ s, true)

abbrev pub item_bytes : Bytes → Bytes → Bytes → Bytes
item_bytes k v rest = be_bytes 4 (length k) ++ (k ++ (be_bytes 4 (length v) ++ (v ++ rest)))

abbrev pub items_bytes : Map Bytes → Bytes → Bytes
items_bytes [] rest = rest
items_bytes ((k, v) ∷ m) rest = item_bytes k v (items_bytes m rest)

abbrev pub header_bytes : SpanContext → ℕ → Bytes → Bytes
header_bytes c f rest =
    be_bytes 8 c.trace_id.high
    ++ (be_bytes 8 c.trace_id.low
        ++ (be_bytes 8 c.span_id ++ (be_bytes 8 c.parent_id ++ (be_bytes 1 f ++ rest))))

inject_items-bytes :
    (m : Map Bytes) (w rest : Bytes)
    → (inject_items buffer_write m w).0 ++ rest ≡ w ++ items_bytes m rest
unfolding inject_items
inject_items-bytes [] w rest = refl
inject_items-bytes ((k, v) ∷ m) w rest = inject_items-bytes m _ rest ∙ simp append_assoc

inject_items-succeeds : (m : Map Bytes) (w : Bytes) → (inject_items buffer_write m w).1 ≡ true
unfolding inject_items
inject_items-succeeds [] w = refl
inject_items-succeeds ((k, v) ∷ m) w = inject_items-succeeds m _

written_lem :
    (p : Bytes × Bool)
    → p.1 ≡ true
    → ((written buffer_write p).0 ≡ p.0) × ((written buffer_write p).1 ≡ ok tt)
written_lem (w, true) h = (refl, refl)
written_lem (w, false) h = absurd (ground arith)

inject_baggage-bytes :
    (m : Map Bytes) (w rest : Bytes)
    → ((inject_baggage buffer_write m w).0 ++ rest
        ≡ w ++ (be_bytes 4 (length m) ++ items_bytes m rest))
      × ((inject_baggage buffer_write m w).1 ≡ ok tt)
unfolding inject_baggage
inject_baggage-bytes m w rest =
    let w6 = w ++ be_bytes 4 (length m) in
    let ends = written_lem (inject_items buffer_write m w6) (inject_items-succeeds m w6) in
    (
      rw ends.0 (
          inject_items-bytes m w6 rest
          ∙ append_assoc w (be_bytes 4 (length m)) (items_bytes m rest)),
      ends.1,
    )

-- The bytes that are injected into a buffer.
pub inject-bytes :
    (st : States) (c : SpanContext) (s : SamplingState) (rest : Bytes)
    → state_of st c ≡ some s
    → ((inject buffer_write st c []).0 ++ rest
        ≡ header_bytes c (flags s) (be_bytes 4 (length c.baggage) ++ items_bytes c.baggage rest))
      × ((inject buffer_write st c []).1 ≡ ok tt)
unfolding inject
inject-bytes st c s rest e =
    let done = λ (w : Bytes). inject_baggage-bytes c.baggage w rest in
    rw e ((done _).0 ∙ simp append_assoc, (done _).1)

-- One item.
extract_item-bytes :
    (k v rest : Bytes) (m : Map Bytes)
    → length k + length v ≤ 4096
    → extract_item m (item_bytes k v rest) ≡ ok (insert k v m, rest)
unfolding extract_item
extract_item-bytes k v rest m h =
    rw
      (
        read_number-be_bytes 4 (length k) _ (omega arith),
        grow_and_copy-append k _ (omega arith),
        read_number-be_bytes 4 (length v) _ (omega arith),
        grow_and_copy-append v rest (omega arith),
      )
      (ground arith)

abbrev pub IsShort : Map Bytes → Type 0
IsShort = All (λ kv. length kv.0 + length kv.1 ≤ 4096)

extract_items-bytes :
    (m done : Map Bytes) (rest : Bytes)
    → IsShort m
    → extract_items (length m) done (items_bytes m rest) ≡ ok (insert_all done m, rest)
unfolding extract_items
extract_items-bytes [] done rest h = refl
extract_items-bytes ((k, v) ∷ m) done rest (hk, h) =
    rw (extract_item-bytes k v _ done hk) (extract_items-bytes m (insert k v done) rest h)

module _ (c : SpanContext) (f : ℕ) (rest : Bytes) (st : States) where
  -- The header that `inject` writes, with whatever stands behind it.
  pub extract-header :
      c.trace_id.high < 2 ^ 64
      → c.trace_id.low < 2 ^ 64
      → c.span_id < 2 ^ 64
      → c.parent_id < 2 ^ 64
      → f < 256
      → extract (header_bytes c f rest) st ≡ (
          extract_baggage rest >>= λ r. ok (
            record empty_context {
              trace_id = c.trace_id;
              span_id = c.span_id;
              parent_id = c.parent_id;
              baggage = r.0;
              sampling_state = some (length st);
            },
            st ++ set_flags fresh_state f ∷ [],
            r.1,
          ))
  unfolding extract
  extract-header hh hl hs hp hf = rw (
    read_number-be_bytes 8 c.trace_id.high _ (omega arith),
    read_number-be_bytes 8 c.trace_id.low _ (omega arith),
    read_number-be_bytes 8 c.span_id _ (omega arith),
    read_number-be_bytes 8 c.parent_id _ (omega arith),
    read_number-be_bytes 1 f _ (omega arith),
  )

extract_baggage-bytes :
    (m : Map Bytes) (rest : Bytes)
    → IsMap m
    → IsShort m
    → length m ≤ 180
    → extract_baggage (be_bytes 4 (length m) ++ items_bytes m rest) ≡ ok (m, rest)
unfolding extract_baggage
extract_baggage-bytes m rest u short few =
    let read = read_number-be_bytes 4 (length m) (items_bytes m rest) (omega arith) in
    let items = extract_items-bytes m [] rest short in
    let same = insert_all-nil m u in rw read (ground (arith, items, same))

-- A context whose IDs are uint64 values, with at most 180 baggage items of at most 4096 bytes each
-- (key and value together, no key twice), that is injected into a buffer is extracted from it, with
-- the same IDs, baggage and flags, in a new sampling state, whatever follows in the carrier; what
-- follows stays unread. Neither end reports an error.
pub extract-inject :
    (c : SpanContext) (st st' : States) (s : SamplingState) (rest : Bytes)
    → c.trace_id.high < 2 ^ 64
    → c.trace_id.low < 2 ^ 64
    → c.span_id < 2 ^ 64
    → c.parent_id < 2 ^ 64
    → state_of st c ≡ some s
    → IsMap c.baggage
    → IsShort c.baggage
    → length c.baggage ≤ 180
    → ((inject buffer_write st c []).1 ≡ ok tt)
      × (extract ((inject buffer_write st c []).0 ++ rest) st'
          ≡ ok (
            record empty_context {
              trace_id = c.trace_id;
              span_id = c.span_id;
              parent_id = c.parent_id;
              baggage = c.baggage;
              sampling_state = some (length st');
            },
            st' ++ set_flags fresh_state (flags s) ∷ [],
            rest,
          ))
extract-inject c st st' s rest hh hl hs hp e u short few =
    let out = inject-bytes st c s rest e in
    let byte : flags s < 256 = unfold flags in omega arith in
    (
      out.1,
      rw (
        out.0,
        extract-header c (flags s) _ st' hh hl hs hp byte,
        extract_baggage-bytes c.baggage rest u short few,
      ),
    )
