-- ===== src/Sampler/Boundary.antt =====
-- The decisions of the probabilistic sampler.
use jaeger_client_go.Base.{
  ℕ, ◌≤◌, ◌%◌, ◌^◌, ◌≡◌, refl, true, false, none, some, arith, Bool-cases, ◌⊎◌, inl, inr,
}
use jaeger_client_go.Base.Float.{Float, Within, IsOrdered}
use jaeger_client_go.SpanContext.{TraceId}
use jaeger_client_go.Sampler.{
  ProbabilisticSampler, init_probabilistic, new_probabilistic_sampler, probabilistic_is_sampled,
  update_probabilistic, out_of_range, clamp,
}

module _ (F : Float) (o : IsOrdered F) where
  one : F.leb (F.of_nat 1) (F.of_nat 1) ≡ true
  one = o.of_nat_mono 1 1 (omega arith)

  share-Within :
      (n : ℕ) (a : F.Num)
      → n ≤ 2 ^ 63
      → F.leb (F.of_nat 0) a ≡ true
      → F.leb a (F.of_nat 1) ≡ true
      → Within F (F.mul (F.of_nat n) a)
  share-Within n a small nonneg below =
      let most : F.leb (F.of_nat n) (F.of_nat (2 ^ 63)) ≡ true = o.of_nat_mono n (2 ^ 63) small in
      let unit : F.leb (F.of_nat 1) (F.of_nat (2 ^ 63)) ≡ true =
        o.of_nat_mono 1 (2 ^ 63) (omega arith) in
      (
        o.mul_nonneg _ _ (o.of_nat_mono 0 n (omega arith), most)
            (nonneg, o.le_trans _ _ _ below unit),
        o.le_trans _ _ _ (o.mul_le n a small nonneg below) most,
      )

  clamp-bounds :
      (r : F.Num)
      → F.leb r r ≡ true
      → (F.leb (F.of_nat 0) (clamp F r) ≡ true) × (F.leb (clamp F r) (F.of_nat 1) ≡ true)
  clamp-bounds r number =
      let below = o.min_le r 1 number in
      (
        o.le_max (F.min r (F.of_nat 1)) 0 (o.refl_of_le _ _ below).0,
        o.max_le _ _ _ (o.of_nat_mono 0 1 (omega arith)) below,
      )

  boundary_mono :
      (r r' : F.Num)
      → F.leb r r' ≡ true
      → (init_probabilistic F r).sampling_boundary ≤ (init_probabilistic F r').sampling_boundary
  unfolding init_probabilistic
  boundary_mono r r' h =
      let (number, number') = o.refl_of_le r r' h in
      let (nonneg, below) = clamp-bounds r number in
      let (nonneg', below') = clamp-bounds r' number' in
      let ordered : F.leb (clamp F r) (clamp F r') ≡ true =
        o.max_mono _ _ 0 (o.min_mono r r' 1 h) in
      o.floor_mono _ _ (share-Within _ _ (omega arith) nonneg below)
        (share-Within _ _ (omega arith) nonneg' below')
        (o.mul_mono _ _ _ (omega arith) nonneg ordered below')

  -- In the arithmetic of float64, whose laws are a hypothesis: a trace that is sampled at one rate
  -- is sampled at every higher rate, so that services that sample the same trace ID at different
  -- rates keep whole traces. This holds for rates outside [0, 1] too, which are clamped.
  pub probabilistic_is_sampled_mono :
      (r r' : F.Num) (id : TraceId)
      → F.leb r r' ≡ true
      → (probabilistic_is_sampled F (init_probabilistic F r) id).0 ≡ true
      → (probabilistic_is_sampled F (init_probabilistic F r') id).0 ≡ true
  unfolding probabilistic_is_sampled
  probabilistic_is_sampled_mono r r' id h sampled = ground (arith, boundary_mono r r' h)

module _ (F : Float) where
  -- Only the low 63 bits of the trace ID count: IDs that agree in them get the same decision.
  pub probabilistic_is_sampled_low :
      (s : ProbabilisticSampler F.Num) (id id' : TraceId)
      → id.low % 2 ^ 63 ≡ id'.low % 2 ^ 63
      → probabilistic_is_sampled F s id ≡ probabilistic_is_sampled F s id'
  unfolding probabilistic_is_sampled
  probabilistic_is_sampled_low s id id' h = rw h

  -- The constructor and `Update` accept just the same rates, and `Update` gives the sampler that
  -- the constructor gives; a rate that is refused leaves the sampler as it was.
  pub update_probabilistic_lem :
      (s : ProbabilisticSampler F.Num) (rate : F.Num)
      → ((new_probabilistic_sampler F rate ≡ none) × (update_probabilistic F s rate ≡ (s, false)))
        ⊎ ((t : ProbabilisticSampler F.Num) × (new_probabilistic_sampler F rate ≡ some t)
            × (update_probabilistic F s rate ≡ (t, true)))
  unfolding new_probabilistic_sampler update_probabilistic
  update_probabilistic_lem s rate = elim (Bool-cases (out_of_range F rate)) [
    | inl bad ↦ rw bad (inl (refl, refl))
    | inr good ↦ rw good (inr (init_probabilistic F rate, refl, refl))
  ]
