-- ===== src/SpanContext/Flags/Laws.antt =====
-- The writes of the sampling state change just the flags that they name.
use jaeger_client_go.Base.{
  ℕ, ◌<◌, ltb, bit_or, Bool, true, false, ◌&&◌, ◌≡◌, refl, table, table_lem, arith,
}
use jaeger_client_go.SpanContext.Flags.{
  SamplingState, flag_sampled, flag_debug, flag_firehose, and_not, set_sampled, unset_sampled,
  set_debug_and_sampled, set_firehose, has_flag, is_sampled, is_debug, is_firehose,
}

-- `bool` equality
same : Bool → Bool → Bool
same true b = b
same false true = false
same false false = true

-- how one write changes the three flags, over all bytes
agrees : (ℕ → ℕ) → (Bool → Bool) → (Bool → Bool) → (Bool → Bool) → ℕ → Bool
unfolding same
agrees write s d f x =
    same (has_flag (write x) flag_sampled) (s (has_flag x flag_sampled))
    && (same (has_flag (write x) flag_debug) (d (has_flag x flag_debug))
        && (same (has_flag (write x) flag_firehose) (f (has_flag x flag_firehose))
            && ltb (write x) 256))

same_sound : (a b : Bool) → same a b ≡ true → a ≡ b
unfolding same
same_sound true b h = ground arith
same_sound false true h = ground arith
same_sound false false h = refl

-- What a write does to the flags of a state.
abbrev pub Writes : SamplingState → SamplingState → Bool → Bool → Bool → Type 0
Writes s s' sampled debug firehose =
    (is_sampled s' ≡ sampled)
    × (is_debug s' ≡ debug)
    × (is_firehose s' ≡ firehose)
    × (s'.state_flags < 256)
    × (s'.final ≡ s.final)
    × (s'.local_root_span ≡ s.local_root_span)

and_true : (a b : Bool) → (a && b) ≡ true → (a ≡ true) × (b ≡ true)
and_true true b h = (refl, h)
and_true false b h = ground arith

agrees_sound :
    (write : ℕ → ℕ) (s d f : Bool → Bool) (x : ℕ)
    → agrees write s d f x ≡ true
    → (has_flag (write x) flag_sampled ≡ s (has_flag x flag_sampled))
      × (has_flag (write x) flag_debug ≡ d (has_flag x flag_debug))
      × (has_flag (write x) flag_firehose ≡ f (has_flag x flag_firehose))
      × (write x < 256)
unfolding agrees
agrees_sound write s d f x h =
    let (hs, more) = and_true _ _ h in
    let (hd, last) = and_true _ _ more in
    let (hf, lt) = and_true _ _ last in
    (same_sound _ _ hs, same_sound _ _ hd, same_sound _ _ hf, ground arith)

set_sampled_table : table (agrees (λ x. bit_or x 1) (λ _. true) (λ b. b) (λ b. b)) 256 ≡ true
unfolding table agrees
set_sampled_table = refl

unset_sampled_table : table (agrees (λ x. and_not x 1) (λ _. false) (λ b. b) (λ b. b)) 256 ≡ true
unfolding table agrees
unset_sampled_table = refl

set_debug_and_sampled_table :
    table (agrees (λ x. bit_or x 3) (λ _. true) (λ _. true) (λ b. b)) 256 ≡ true
unfolding table agrees
set_debug_and_sampled_table = refl

set_firehose_table : table (agrees (λ x. bit_or x 8) (λ b. b) (λ b. b) (λ _. true)) 256 ≡ true
unfolding table agrees
set_firehose_table = refl

module _ (s : SamplingState) (h : s.state_flags < 256) where
  set_sampled-Writes : Writes s (set_sampled s) true (is_debug s) (is_firehose s)
  unfolding set_sampled is_sampled is_debug is_firehose
  set_sampled-Writes =
      let (ws, wd, wf, lt) =
        agrees_sound (λ x. bit_or x 1) (λ _. true) (λ b. b) (λ b. b) s.state_flags
          (table_lem _ 256 s.state_flags h set_sampled_table) in
      (ws, wd, wf, lt, refl, refl)

  unset_sampled-Writes : Writes s (unset_sampled s) false (is_debug s) (is_firehose s)
  unfolding unset_sampled is_sampled is_debug is_firehose
  unset_sampled-Writes =
      let (ws, wd, wf, lt) =
        agrees_sound (λ x. and_not x 1) (λ _. false) (λ b. b) (λ b. b) s.state_flags
          (table_lem _ 256 s.state_flags h unset_sampled_table) in
      (ws, wd, wf, lt, refl, refl)

  set_debug_and_sampled-Writes : Writes s (set_debug_and_sampled s) true true (is_firehose s)
  unfolding set_debug_and_sampled is_sampled is_debug is_firehose
  set_debug_and_sampled-Writes =
      let (ws, wd, wf, lt) =
        agrees_sound (λ x. bit_or x 3) (λ _. true) (λ _. true) (λ b. b) s.state_flags
          (table_lem _ 256 s.state_flags h set_debug_and_sampled_table) in
      (ws, wd, wf, lt, refl, refl)

  set_firehose-Writes : Writes s (set_firehose s) (is_sampled s) (is_debug s) true
  unfolding set_firehose is_sampled is_debug is_firehose
  set_firehose-Writes =
      let (ws, wd, wf, lt) =
        agrees_sound (λ x. bit_or x 8) (λ b. b) (λ b. b) (λ _. true) s.state_flags
          (table_lem _ 256 s.state_flags h set_firehose_table) in
      (ws, wd, wf, lt, refl, refl)

-- For every sampling state with a byte of flags: `setSampled` sets just the sampled flag and
-- `unsetSampled` clears just that, so a debug flag survives it; `setDebugAndSampled` sets both, and
-- `setFirehose` the firehose flag. No write touches the others of
-- these three flags, the finality or the local root, and the flags stay a byte.
pub flag-Writes :
    (s : SamplingState)
    → s.state_flags < 256
    → Writes s (set_sampled s) true (is_debug s) (is_firehose s)
      × Writes s (unset_sampled s) false (is_debug s) (is_firehose s)
      × Writes s (set_debug_and_sampled s) true true (is_firehose s)
      × Writes s (set_firehose s) (is_sampled s) (is_debug s) true
flag-Writes s h = (
  set_sampled-Writes s h,
  unset_sampled-Writes s h,
  set_debug_and_sampled-Writes s h,
  set_firehose-Writes s h,
)
