-- ===== src/SpanContext/Codec/RoundTrip.antt =====
-- A printed identity is read back; a printed context is read back up to its flags.
use jaeger_client_go.Base.{
  ℕ, ◌-◌, ◌%◌, ◌≤◌, ◌<◌, ◌^◌, ◌==◌, ltb, Bool, true, false, ◌≡◌, ◌≢◌, refl, sym, ap, inl, inr, ◌∙◌,
  [], ◌∷◌, ◌++◌, none, some, length, take, drop, take-append, drop-append, get_elem?-append,
  length-append, Bytes, bytes_eq, bytes_eq_iff, Bool-cases, Option-cases, if◌then◌else◌, arith,
  table, table_lem, not, leb,
}
use jaeger_client_go.Outcome.{ok, ◌>>=◌}
use jaeger_client_go.SpanContext.Flags.{SamplingState, fresh_state, set_flags}
use jaeger_client_go.SpanContext.Hex.{hex_pad, hex, parse_uint as parse_number, split}
use jaeger_client_go.SpanContext.Hex.RoundTrip.{
  length-hex_pad, parse_uint-hex_pad, Lacks, hex_pad-Lacks, hex-Lacks, split_from-Lacks,
  split_from_last, Lacks-append,
}
use jaeger_client_go.SpanContext.{TraceId, SpanId, SpanContext, States, state_of, empty_context}
use jaeger_client_go.SpanContext.Codec.{
  trace_id_string, trace_id_from_string, span_id_from_string, span_id_string, parse_or_err,
  parse_parts, context_string, context_from_string,
}

pub parse_or_err-hex_pad : (v : ℕ) → v < 2 ^ 64 → parse_or_err (hex_pad 16 v) 16 64 ≡ ok v
parse_or_err-hex_pad v h = ground (arith, parse_uint-hex_pad v h)

span_id_from_string-hex_pad : (v : ℕ) → v < 2 ^ 64 → span_id_from_string (hex_pad 16 v) ≡ ok v
unfolding span_id_from_string
span_id_from_string-hex_pad v h = ground (arith, parse_or_err-hex_pad v h, length-hex_pad 16 v)

trace_id_from_string_long :
    (hi lo : ℕ)
    → hi < 2 ^ 64
    → lo < 2 ^ 64
    → trace_id_from_string (hex_pad 16 hi ++ hex_pad 16 lo) ≡ ok (record { high = hi; low = lo })
unfolding trace_id_from_string
trace_id_from_string_long hi lo hh hl =
    let s = hex_pad 16 hi ++ hex_pad 16 lo in
    let size : length s ≡ 32 = omega (
      arith,
      length-append (hex_pad 16 hi) (hex_pad 16 lo),
      length-hex_pad 16 hi,
      length-hex_pad 16 lo,
    ) in
    let cut : length s - 16 ≡ 16 = omega arith in
    let front : take (length s - 16) s ≡ hex_pad 16 hi =
      rw cut (take-append (hex_pad 16 hi) (hex_pad 16 lo) 16 (sym (length-hex_pad 16 hi))) in
    let back : drop (length s - 16) s ≡ hex_pad 16 lo =
      rw cut (drop-append (hex_pad 16 hi) (hex_pad 16 lo) 16 (sym (length-hex_pad 16 hi))) in
    ground (arith, size, front, back, parse_uint-hex_pad hi hh, parse_uint-hex_pad lo hl)

trace_id_from_string_short :
    (lo : ℕ)
    → lo < 2 ^ 64
    → trace_id_from_string (hex_pad 16 lo) ≡ ok (record { high = 0; low = lo })
unfolding trace_id_from_string
trace_id_from_string_short lo hl = ground (arith, length-hex_pad 16 lo, parse_uint-hex_pad lo hl)

-- A trace ID of 64 or of 128 bits is read back from its hexadecimal text, and a span ID from its.
pub id_from_string-string :
    (t : TraceId) (s : SpanId)
    → t.high < 2 ^ 64
    → t.low < 2 ^ 64
    → s < 2 ^ 64
    → (trace_id_from_string (trace_id_string t) ≡ ok t)
      × (span_id_from_string (span_id_string s) ≡ ok s)
unfolding trace_id_string span_id_string
id_from_string-string t s hh hl hs = (
  ground (arith, trace_id_from_string_short t.low hl, trace_id_from_string_long t.high t.low hh hl),
  span_id_from_string-hex_pad s hs,
)

module _ (c : SpanContext) (hh : c.trace_id.high < 2 ^ 64) (hl : c.trace_id.low < 2 ^ 64)
    (hs : c.span_id < 2 ^ 64) (hp : c.parent_id < 2 ^ 64) where
  trace_id_string-Lacks : Lacks b':' (trace_id_string c.trace_id)
  unfolding trace_id_string
  trace_id_string-Lacks = elim (Bool-cases (c.trace_id.high == 0)) [
    | inl z ↦ rw z (hex_pad-Lacks 16 c.trace_id.low)
    | inr nz ↦
        rw nz (
          Lacks-append b':' _ _ (hex_pad-Lacks 16 c.trace_id.high)
            (hex_pad-Lacks 16 c.trace_id.low))
  ]

  abbrev text : ℕ → Bytes
  text f =
      trace_id_string c.trace_id
      ++ (b':' ∷ (hex_pad 16 c.span_id ++ (b':' ∷ (hex_pad 16 c.parent_id ++ (b':' ∷ hex 7 f)))))

  context_string-text :
      (st : States) (s : SamplingState)
      → state_of st c ≡ some s
      → context_string st c ≡ text s.state_flags
  unfolding context_string trace_id_string
  context_string-text st s e = ground (arith, e)

  split-text :
      (f : ℕ)
      → split (text f) b':'
        ≡ trace_id_string c.trace_id ∷ hex_pad 16 c.span_id ∷ hex_pad 16 c.parent_id ∷ hex 7 f ∷ []
  unfolding split
  split-text f =
      rw
        (
          split_from-Lacks b':' (trace_id_string c.trace_id) [] _ trace_id_string-Lacks,
          split_from-Lacks b':' (hex_pad 16 c.span_id) [] _ (hex_pad-Lacks 16 c.span_id),
          split_from-Lacks b':' (hex_pad 16 c.parent_id) [] _ (hex_pad-Lacks 16 c.parent_id),
        )
        (rw (split_from_last b':' (hex 7 f) [] (hex-Lacks 7 f)))

  text-ne-nil : (f : ℕ) → text f ≢ []
  text-ne-nil f e = omega (
    arith,
    length-append (trace_id_string c.trace_id)
        (b':' ∷ (hex_pad 16 c.span_id ++ (b':' ∷ (hex_pad 16 c.parent_id ++ (b':' ∷ hex 7 f))))),
    ap length e,
  )

  -- the context that is read back, with the flags that are read
  abbrev pub read_back : States → ℕ → SpanContext × States
  read_back st f = (
    record empty_context {
      trace_id = c.trace_id;
      span_id = c.span_id;
      parent_id = c.parent_id;
      sampling_state = some (length st);
    },
    st ++ set_flags fresh_state f ∷ [],
  )

  context_from_string-text :
      (f : ℕ) (st : States)
      → context_from_string (text f) st
        ≡ (parse_or_err (hex 7 f) 10 8 >>= λ flags. ok (read_back st flags))
  unfolding context_from_string parse_parts
  context_from_string-text f st =
      let ids = id_from_string-string c.trace_id c.span_id hh hl hs in
      let sid = span_id_from_string-hex_pad c.span_id hs in
      let pid = span_id_from_string-hex_pad c.parent_id hp in
      let nonempty : bytes_eq (text f) [] ≡ false = elim (Bool-cases (bytes_eq (text f) [])) [
        | inl y ↦ absurd (text-ne-nil f ((bytes_eq_iff (text f) []).0 y))
        | inr n ↦ n
      ] in
      rw (nonempty, split-text f, ids.0, sid, pid) (ground arith)

-- The flags are printed in base 16 and read in base 10, so just one digit survives.
flags_agree : ℕ → Bool
flags_agree f = elim (parse_number (hex 7 f) 10 8) [
  | none ↦ leb 10 f
  | some n ↦ if ltb f 10 then n == f else not ((n % 256) == f)
]

flags_table : table flags_agree 256 ≡ true
unfolding table flags_agree parse_number hex
flags_table = refl

flags_kept : (f : ℕ) → f < 10 → parse_number (hex 7 f) 10 8 ≡ some f
unfolding flags_agree
flags_kept f h = ground (arith, table_lem flags_agree 256 f, flags_table)

flags_lost : (f n : ℕ) → 10 ≤ f → f < 256 → parse_number (hex 7 f) 10 8 ≡ some n → n % 256 ≢ f
unfolding flags_agree
flags_lost f n h lt e = ground (arith, table_lem flags_agree 256 f, flags_table)

-- A span context whose IDs are uint64 values and whose flags are below 10 is read back from its
-- text: the same IDs, in a context with no baggage that points to a new sampling state with the
-- same flags; the other states stay.
pub context_from_string-string :
    (c : SpanContext) (st st' : States) (s : SamplingState)
    → c.trace_id.high < 2 ^ 64
    → c.trace_id.low < 2 ^ 64
    → c.span_id < 2 ^ 64
    → c.parent_id < 2 ^ 64
    → state_of st c ≡ some s
    → s.state_flags < 10
    → context_from_string (context_string st c) st'
      ≡ ok (
        record empty_context {
          trace_id = c.trace_id;
          span_id = c.span_id;
          parent_id = c.parent_id;
          sampling_state = some (length st');
        },
        st' ++ record fresh_state { state_flags = s.state_flags } ∷ [],
      )
unfolding set_flags
context_from_string-string c st st' s hh hl hs hp e small =
    let byte : s.state_flags % 256 ≡ s.state_flags = omega arith in
    rw
      (
        context_string-text c hh hl hs hp st s e,
        context_from_string-text c hh hl hs hp s.state_flags st',
      )
      (ground (arith, flags_kept s.state_flags small, byte))

-- With any other byte of flags, such as sampled, debug and firehose together, the text of a context
-- is refused or is read as a context with other flags.
pub context_from_string_loses_flags :
    (c c' : SpanContext) (st st' st'' : States) (s s' : SamplingState)
    → c.trace_id.high < 2 ^ 64
    → c.trace_id.low < 2 ^ 64
    → c.span_id < 2 ^ 64
    → c.parent_id < 2 ^ 64
    → state_of st c ≡ some s
    → 10 ≤ s.state_flags
    → s.state_flags < 256
    → context_from_string (context_string st c) st' ≡ ok (c', st'')
    → state_of st'' c' ≡ some s'
    → s'.state_flags ≢ s.state_flags
unfolding set_flags
context_from_string_loses_flags c c' st st' st'' s s' hh hl hs hp e big byte read found =
    let text_read =
      sym (context_from_string-text c hh hl hs hp s.state_flags st')
      ∙ ap (λ t. context_from_string t st') (sym (context_string-text c hh hl hs hp st s e))
      ∙ read in
    elim (Option-cases (parse_number (hex 7 s.state_flags) 10 8)) [
      | inl bad ↦ absurd (ground (arith, bad, text_read))
      | inr (n, good) ↦ ground (
        arith,
        good,
        text_read,
        flags_lost s.state_flags n big byte good,
        get_elem?-append st' [] (set_flags fresh_state n) (length st') refl,
      )
    ]
