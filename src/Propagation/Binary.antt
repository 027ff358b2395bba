-- ===== src/Propagation/Binary.antt =====
-- The binary propagation format: `Inject` and `Extract` of BinaryPropagator in propagation.go.
-- Numbers are written with the most significant byte first. An int32 is its bit pattern.
pub mod Numbers
pub mod RoundTrip
pub mod Refuses
use jaeger_client_go.Base.{
  ℕ, zero, suc, ◌+◌, ◌*◌, ◌/◌, ◌%◌, ◌^◌, ltb, leb, ◌&&◌, ◌||◌, not, Bool, true, false,
  if◌then◌else◌, List, [], ◌∷◌, ◌++◌, Option, none, some, length, take, drop, Bytes, Map, insert,
}
use jaeger_client_go.Outcome.{
  Outcome, ok, err, panic, ◌>>=◌, ◌>>◌, guard, span_context_corrupted, carrier_failed,
}
use jaeger_client_go.SpanContext.Flags.{fresh_state, set_flags, flags}
use jaeger_client_go.SpanContext.{SpanContext, TraceId, States, state_of, new_state, empty_context}

-- the n low bytes of a number
unfoldable pub be_bytes : ℕ → ℕ → Bytes
be_bytes zero v = []
be_bytes (suc n) v = be_bytes n (v / 256) ++ (v % 256) ∷ []

-- Read n bytes behind those that spell `acc`; `none` if the input ends.
unfoldable pub read_be : ℕ → ℕ → Bytes → Option (ℕ × Bytes)
read_be zero acc s = some (acc, s)
read_be (suc n) acc [] = none
read_be (suc n) acc (c ∷ s) = read_be n (acc * 256 + c) s

-- binary.Read of a number, with the error that `Extract` returns
unfoldable pub read_number : ℕ → Bytes → Outcome (ℕ × Bytes)
unfolding read_be
read_number n s = elim (read_be n 0 s) [ none ↦ err span_context_corrupted | some r ↦ ok r ]

abbrev pub max_binary_baggage : ℕ
max_binary_baggage = 180

abbrev pub max_binary_name_value_len : ℕ
max_binary_name_value_len = 4096

abbrev pub is_negative : ℕ → Bool
is_negative w = leb (2 ^ 31) w

-- a > b for the int32 with the bit pattern a and a small positive b
abbrev pub exceeds : ℕ → ℕ → Bool
exceeds a b = ltb b a && not (is_negative a)

-- buf.Grow(n), which panics on a negative n, and io.CopyN(buf, carrier, n), which fails if the
-- carrier holds fewer bytes
unfoldable pub grow_and_copy : ℕ → Bytes → Outcome (Bytes × Bytes)
grow_and_copy n s =
    if is_negative n
    then panic
    else if ltb (length s) n
    then err span_context_corrupted
    else ok (take n s, drop n s)

-- One round of the loop over the baggage items.
unfoldable pub extract_item : Map Bytes → Bytes → Outcome (Map Bytes × Bytes)
extract_item baggage s = do
  (key_len, s) ← read_number 4 s
  (key, s) ← grow_and_copy key_len s
  (val_len, s) ← read_number 4 s
  guard (not (exceeds ((key_len + val_len) % 2 ^ 32) max_binary_name_value_len))
      span_context_corrupted
  (value, s) ← grow_and_copy val_len s
  ok (insert key value baggage, s)

unfoldable pub extract_items : ℕ → Map Bytes → Bytes → Outcome (Map Bytes × Bytes)
extract_items zero baggage s = ok (baggage, s)
extract_items (suc n) baggage s = do
  (baggage, s) ← extract_item baggage s
  extract_items n baggage s

-- The part of `Extract` from the number of baggage items on.
unfoldable pub extract_baggage : Bytes → Outcome (Map Bytes × Bytes)
extract_baggage s = do
  (num_baggage, s) ← read_number 4 s
  guard (not (exceeds num_baggage max_binary_baggage)) span_context_corrupted
  let count = if is_negative num_baggage then 0 else num_baggage
  extract_items count [] s

-- `Extract`, with the unread part of the carrier.
unfoldable pub extract : Bytes → States → Outcome (SpanContext × States × Bytes)
extract s st = do
  (high, s) ← read_number 8 s
  (low, s) ← read_number 8 s
  (span_id, s) ← read_number 8 s
  (parent_id, s) ← read_number 8 s
  (flags, s) ← read_number 1 s
  (baggage, s) ← extract_baggage s
  let (st', r) = new_state (set_flags fresh_state flags) st
  ok (
    record empty_context {
      trace_id = record { high = high; low = low };
      span_id = span_id;
      parent_id = parent_id;
      baggage = baggage;
      sampling_state = some r;
    },
    st',
    s,
  )

-- The carrier is an io.Writer: a write returns the writer and whether it succeeded.
module _ {W : Type 0} (write : W → Bytes → W × Bool) where
  -- io.WriteString, the error of which is ignored
  abbrev pub write_string : W → Bytes → W
  write_string w s = (write w s).0

  unfoldable pub inject_items : Map Bytes → W → W × Bool
  inject_items [] w = (w, true)
  inject_items ((k, v) ∷ m) w =
      let (w1, key_ok) = write w (be_bytes 4 (length k)) in
      let w2 = write_string w1 k in
      let (w3, val_ok) = write w2 (be_bytes 4 (length v)) in
      let rest = inject_items m (write_string w3 v) in
      if key_ok then (if val_ok then rest else (w3, false)) else (w1, false)

  abbrev pub written : W × Bool → W × Outcome (Unit {0})
  written (w, true) = (w, ok tt)
  written (w, false) = (w, err carrier_failed)

  -- Behind the flags, which are read through the state pointer.
  unfoldable pub inject_baggage : Map Bytes → W → W × Outcome (Unit {0})
  inject_baggage baggage w5 =
      let (w6, ok6) = write w5 (be_bytes 4 (length baggage)) in
      let rest = written (inject_items baggage w6) in if ok6 then rest else (w6, err carrier_failed)

  unfoldable pub inject : States → SpanContext → W → W × Outcome (Unit {0})
  inject st sc w =
      let (w1, ok1) = write w (be_bytes 8 sc.trace_id.high ++ be_bytes 8 sc.trace_id.low) in
      let (w2, ok2) = write w1 (be_bytes 8 sc.span_id) in
      let (w3, ok3) = write w2 (be_bytes 8 sc.parent_id) in
      if not ok1
      then (w1, err carrier_failed)
      else if not ok2
      then (w2, err carrier_failed)
      else if not ok3
      then (w3, err carrier_failed)
      else elim (state_of st sc) [
        | none ↦ (w3, panic)
        | some s ↦
            let (w4, ok4) = write w3 (be_bytes 1 (flags s)) in
            let rest = inject_baggage sc.baggage w4 in
            if ok4 then rest else (w4, err carrier_failed)
      ]
