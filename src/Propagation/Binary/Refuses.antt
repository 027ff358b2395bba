-- ===== src/Propagation/Binary/Refuses.antt =====
-- What the binary extractor does with carriers that no injector within the limits writes.
use jaeger_client_go.Base.{
  ℕ, zero, suc, ◌+◌, ◌*◌, ◌^◌, ◌<◌, ◌≤◌, ◌≡◌, [], ◌∷◌, ◌++◌, ◌⊎◌, inl, inr, some, length,
  Option-cases, Bytes, Map, arith,
}
use jaeger_client_go.Outcome.{Outcome, ok, err, panic, ◌>>=◌, span_context_corrupted}
use jaeger_client_go.SpanContext.Flags.{SamplingState, flags}
use jaeger_client_go.SpanContext.{SpanContext, States, state_of}
use jaeger_client_go.Propagation.Binary.{
  be_bytes, read_be, read_number, grow_and_copy, extract_item, extract_items, extract_baggage,
  extract, inject,
}
use jaeger_client_go.Propagation.Binary.Numbers.{read_number-be_bytes}
use jaeger_client_go.Propagation.Binary.RoundTrip.{
  buffer_write, items_bytes, header_bytes, inject-bytes, extract-header,
}

-- A context with more than 180 baggage items is injected without an error, and what was injected
-- is refused by `Extract` as corrupted.
pub extract-inject_too_many :
    (c : SpanContext) (st st' : States) (s : SamplingState) (rest : Bytes)
    → c.trace_id.high < 2 ^ 64
    → c.trace_id.low < 2 ^ 64
    → c.span_id < 2 ^ 64
    → c.parent_id < 2 ^ 64
    → state_of st c ≡ some s
    → 180 < length c.baggage
    → length c.baggage < 2 ^ 31
    → ((inject buffer_write st c []).1 ≡ ok tt)
      × (extract ((inject buffer_write st c []).0 ++ rest) st' ≡ err span_context_corrupted)
unfolding extract_baggage flags
extract-inject_too_many c st st' s rest hh hl hs hp e many int32 =
    let out = inject-bytes st c s rest e in
    let read =
      read_number-be_bytes 4 (length c.baggage) (items_bytes c.baggage rest) (omega arith) in
    (
      out.1,
      rw (out.0, extract-header c (flags s) _ st' hh hl hs hp (omega arith), extract_baggage, read)
          (ground arith),
    )

extract_item_negative :
    (m : Map Bytes) (w : ℕ) (rest : Bytes)
    → 2 ^ 31 ≤ w
    → w < 2 ^ 32
    → extract_item m (be_bytes 4 w ++ rest) ≡ panic
unfolding extract_item grow_and_copy
extract_item_negative m w rest neg word =
    rw (read_number-be_bytes 4 w rest (omega arith)) (ground arith)

-- A carrier with a whole header, a number of items from 1 to 180, and a negative key length makes
-- `Extract` panic instead of returning an error, whatever follows.
pub extract_panics :
    (c : SpanContext) (f n w : ℕ) (rest : Bytes) (st : States)
    → c.trace_id.high < 2 ^ 64
    → c.trace_id.low < 2 ^ 64
    → c.span_id < 2 ^ 64
    → c.parent_id < 2 ^ 64
    → f < 256
    → 0 < n
    → n ≤ 180
    → 2 ^ 31 ≤ w
    → w < 2 ^ 32
    → extract (header_bytes c f (be_bytes 4 n ++ (be_bytes 4 w ++ rest))) st ≡ panic
unfolding extract_baggage extract_items
extract_panics c f zero w rest st hh hl hs hp hf pos few neg word = absurd (omega arith)
extract_panics c f (suc n) w rest st hh hl hs hp hf pos few neg word =
    let read = read_number-be_bytes 4 (suc n) (be_bytes 4 w ++ rest) (omega arith) in
    let item = extract_item_negative [] w rest neg word in
    rw (extract-header c f _ st hh hl hs hp hf, extract_baggage, read) (ground (arith, item))

read_be_rest :
    (n acc v : ℕ) (s rest : Bytes) → read_be n acc s ≡ some (v, rest) → length rest + n ≡ length s
unfolding read_be
read_be_rest zero acc v s rest h = ground arith
read_be_rest (suc n) acc v [] rest h = ground arith
read_be_rest (suc n) acc v (c ∷ s) rest h = omega (arith, read_be_rest n (acc * 256 + c) v s rest h)

-- A read fails on a carrier that is too short, and else consumes its bytes.
read_number-cases :
    (n : ℕ) (s : Bytes)
    → (read_number n s ≡ err span_context_corrupted)
      ⊎ ((v : ℕ) × (rest : Bytes) × (read_number n s ≡ ok (v, rest)) × (length rest + n ≡ length s))
unfolding read_number
read_number-cases n s = elim (Option-cases (read_be n 0 s)) [
  | inl e ↦ inl (rw (e, read_number))
  | inr ((v, rest), e) ↦ inr (v, rest, rw (e, read_number), read_be_rest n 0 v s rest e)
]

module _ {B : Type 0} (f : ℕ × Bytes → Outcome B) (n k : ℕ) where
  -- the rest of a chain of reads that needs k more bytes
  read_chain :
      ((v : ℕ) (rest : Bytes) → length rest < k → f (v, rest) ≡ err span_context_corrupted)
      → (s : Bytes) → length s < n + k
      → (read_number n s >>= f) ≡ err span_context_corrupted
  read_chain more s lt = elim (read_number-cases n s) [
    | inl e ↦ rw e
    | inr (v, rest, e, size) ↦ rw e (more v rest (omega arith))
  ]

extract_baggage_short : (s : Bytes) → length s < 4 → extract_baggage s ≡ err span_context_corrupted
unfolding extract_baggage
extract_baggage_short s lt = elim (read_number-cases 4 s) [
  | inl e ↦ rw e
  | inr (v, rest, e, size) ↦ absurd (omega arith)
]

-- A carrier that is shorter than the header with the number of items (37 bytes) is refused.
pub extract_truncated :
    (s : Bytes) (st : States) → length s < 37 → extract s st ≡ err span_context_corrupted
unfolding extract
extract_truncated s st lt =
    read_chain _ 8 29
      (λ _. read_chain _ 8 21 λ _.
        read_chain _ 8 13
          λ _. read_chain _ 8 5 λ _. read_chain _ 1 4 λ _ rest h. rw (extract_baggage_short rest h))
      s lt
