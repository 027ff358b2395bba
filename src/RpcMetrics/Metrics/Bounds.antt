-- ===== src/RpcMetrics/Metrics/Bounds.antt =====
-- How many endpoints have metrics.
use jaeger_client_go.Base.{
  ℕ, ◌+◌, ◌≤◌, leb, ◌≡◌, refl, sym, ap, ◌∙◌, Bool, true, false, Bool-cases, inl, inr, if◌then◌else◌,
  [], none, some, Option-cases, Bytes, bytes_eq, bytes_eq_refl, codes, Map, lookup, insert, length,
  lookup-insert, length-insert, arith,
}
use mathlib.Core.Path.{subst}
use jaeger_client_go.RpcMetrics.Endpoints.{
  NormalizedEndpoints, new_normalized_endpoints, read_names, normalize_with_lock, normalize,
}
use jaeger_client_go.RpcMetrics.Metrics.{
  Metrics, MetricsByEndpoint, new_metrics, new_metrics_by_endpoint, get_with_write_lock, or_other,
  safe_name_of, get, modify_metrics,
}

module _ (normalizer : Bytes → Bytes) where
  unfoldable pub has : Bytes → Map Metrics → Bool
  has name m = elim (lookup name m) [ none ↦ false | some _ ↦ true ]

  modify_metrics-endpoints :
      (f : Metrics → Metrics) (m : MetricsByEndpoint) (endpoint : Bytes)
      → (modify_metrics normalizer f m endpoint).endpoints ≡ (safe_name_of normalizer m endpoint).0
  unfolding modify_metrics get get_with_write_lock
  modify_metrics-endpoints f m endpoint = ground (arith)

  lookup-modify_metrics :
      (f : Metrics → Metrics) (m : MetricsByEndpoint) (endpoint name : Bytes)
      → lookup name (modify_metrics normalizer f m endpoint).metrics_by_endpoint ≡ (
          if bytes_eq (safe_name_of normalizer m endpoint).1 name
          then some (f (get normalizer m endpoint).1.1)
          else lookup name m.metrics_by_endpoint)
  unfolding modify_metrics get get_with_write_lock
  lookup-modify_metrics f m endpoint name =
      let safe_name : Bytes = (safe_name_of normalizer m endpoint).1 in
      elim (Option-cases (lookup safe_name m.metrics_by_endpoint)) [
        | inl e ↦ ground (
          arith,
          e,
          lookup-insert safe_name name (f new_metrics)
              (insert safe_name new_metrics m.metrics_by_endpoint),
          lookup-insert safe_name name new_metrics m.metrics_by_endpoint,
        )
        | inr (met, e) ↦
            ground (arith, e, lookup-insert safe_name name (f met) m.metrics_by_endpoint)
      ]

  length-modify_metrics :
      (f : Metrics → Metrics) (m : MetricsByEndpoint) (endpoint : Bytes)
      → length (modify_metrics normalizer f m endpoint).metrics_by_endpoint ≡ (
          if has (safe_name_of normalizer m endpoint).1 m.metrics_by_endpoint
          then length m.metrics_by_endpoint
          else length m.metrics_by_endpoint + 1)
  unfolding has modify_metrics get get_with_write_lock
  length-modify_metrics f m endpoint =
      let safe_name : Bytes = (safe_name_of normalizer m endpoint).1 in
      elim (Option-cases (lookup safe_name m.metrics_by_endpoint)) [
        | inl e ↦ ground (
          arith,
          e,
          length-insert safe_name (f new_metrics)
              (insert safe_name new_metrics m.metrics_by_endpoint),
          lookup-insert safe_name safe_name new_metrics m.metrics_by_endpoint,
          bytes_eq_refl safe_name,
          length-insert safe_name new_metrics m.metrics_by_endpoint,
        )
        | inr (met, e) ↦ ground (arith, e, length-insert safe_name (f met) m.metrics_by_endpoint)
      ]

  -- How `get` comes to a name: the cache has it, or is full, or takes it.
  data Named (n : NormalizedEndpoints) (endpoint : Bytes) (n' : NormalizedEndpoints) (name : Bytes)
      : Type 0 where
    cached :
        (norm : Bytes)
        → lookup endpoint n.names ≡ some norm
        → n' ≡ n
        → name ≡ or_other norm
        → Named n endpoint n' name
    full : n' ≡ n → name ≡ codes "other" → Named n endpoint n' name
    taken :
        lookup endpoint n.names ≡ none
        → length n.names + 1 ≤ n.max_size
        → n' ≡ (record n { names = insert endpoint (normalizer endpoint) n.names })
        → name ≡ or_other (normalizer endpoint)
        → Named n endpoint n' name

  safe_name_of-Named :
      (m : MetricsByEndpoint) (endpoint : Bytes)
      → Named m.endpoints endpoint
          (safe_name_of normalizer m endpoint).0
          (safe_name_of normalizer m endpoint).1
  unfolding safe_name_of normalize read_names normalize_with_lock
  safe_name_of-Named m endpoint = elim (Option-cases (lookup endpoint m.endpoints.names)) [
    | inr (norm, e) ↦ cached norm e (ground (arith, e)) (ground (arith, e))
    | inl e ↦ elim (Bool-cases (leb m.endpoints.max_size (length m.endpoints.names))) [
      | inl l ↦ full (ground (arith, e, l)) (ground (arith, e, l, bytes_eq_refl []))
      | inr l ↦ taken e (ground (arith, l)) (ground (arith, e, l)) (ground (arith, e, l))
    ]
  ]

  -- Each name of the cache has metrics; other metrics are only those of "other".
  pub record IsBounded (max_size : ℕ) (m : MetricsByEndpoint) : Type 0 where
    pub size : m.endpoints.max_size ≡ max_size
    pub names : length m.endpoints.names ≤ max_size
    pub present :
        (endpoint norm : Bytes)
        → lookup endpoint m.endpoints.names ≡ some norm
        → has (or_other norm) m.metrics_by_endpoint ≡ true
    pub few :
        length m.metrics_by_endpoint
        ≤ length m.endpoints.names + (if has (codes "other") m.metrics_by_endpoint then 1 else 0)

  pub new_metrics_by_endpoint-IsBounded :
      (max_size : ℕ) → IsBounded max_size (new_metrics_by_endpoint max_size)
  unfolding has new_metrics_by_endpoint new_normalized_endpoints lookup
  new_metrics_by_endpoint-IsBounded max_size = record {
    size = refl;
    names = omega arith;
    present = λ endpoint norm e. ground arith;
    few = omega arith;
  }

  -- a name with metrics keeps them, and the name that was got has some
  has-modify_metrics :
      (f : Metrics → Metrics) (m : MetricsByEndpoint) (endpoint name : Bytes)
      → has name (modify_metrics normalizer f m endpoint).metrics_by_endpoint ≡ (
          if bytes_eq (safe_name_of normalizer m endpoint).1 name
          then true
          else has name m.metrics_by_endpoint)
  unfolding has
  has-modify_metrics f m endpoint name = ground (arith, lookup-modify_metrics f m endpoint name)

  -- what the length and the tests of the metrics are, once the name is known to be `name`
  modify_metrics-few :
      (f : Metrics → Metrics) (m : MetricsByEndpoint) (endpoint name : Bytes)
      → (safe_name_of normalizer m endpoint).1 ≡ name
      → (has name (modify_metrics normalizer f m endpoint).metrics_by_endpoint ≡ true)
        × ((other : Bytes)
            → has other m.metrics_by_endpoint ≡ true
            → has other (modify_metrics normalizer f m endpoint).metrics_by_endpoint ≡ true)
        × ((other : Bytes)
            → bytes_eq name other ≡ false
            → has other (modify_metrics normalizer f m endpoint).metrics_by_endpoint
              ≡ has other m.metrics_by_endpoint)
        × (length (modify_metrics normalizer f m endpoint).metrics_by_endpoint ≡ (
            if has name m.metrics_by_endpoint
            then length m.metrics_by_endpoint
            else length m.metrics_by_endpoint + 1))
  modify_metrics-few f m endpoint name q = (
    has-modify_metrics f m endpoint name ∙ rw (q, bytes_eq_refl name) refl,
    λ other h. ground (arith, has-modify_metrics f m endpoint other, h),
    λ other h. has-modify_metrics f m endpoint other ∙ rw (q, h) refl,
    length-modify_metrics f m endpoint ∙ rw q refl,
  )

  pub modify_metrics-IsBounded :
      (max_size : ℕ) (f : Metrics → Metrics) (m : MetricsByEndpoint) (endpoint : Bytes)
      → IsBounded max_size m
      → IsBounded max_size (modify_metrics normalizer f m endpoint)
  modify_metrics-IsBounded max_size f m endpoint b =
      let names_eq = modify_metrics-endpoints f m endpoint in
      elim (safe_name_of-Named m endpoint) [
        | cached norm e p q ↦
            let (here, kept, apart, count) = modify_metrics-few f m endpoint (or_other norm) q in
            record {
              size = ground (arith, names_eq, p, b.size);
              names = ground (arith, names_eq, p, b.names);
              present = λ k v l. kept (or_other v) (
                  b.present k v
                    (ap (λ (n : NormalizedEndpoints). lookup k n.names) (sym (names_eq ∙ p)) ∙ l));
              few = ground (
                arith,
                names_eq,
                p,
                count,
                b.few,
                b.present endpoint norm e,
                has-modify_metrics f m endpoint (codes "other"),
              );
            }
        | full p q ↦
            let (here, kept, apart, count) = modify_metrics-few f m endpoint (codes "other") q in
            record {
              size = ground (arith, names_eq, p, b.size);
              names = ground (arith, names_eq, p, b.names);
              present = λ k v l. kept (or_other v) (
                  b.present k v
                    (ap (λ (n : NormalizedEndpoints). lookup k n.names) (sym (names_eq ∙ p)) ∙ l));
              few = ground (arith, names_eq, p, count, b.few, here);
            }
        | taken e room p q ↦
            let (here, kept, apart, count) =
              modify_metrics-few f m endpoint (or_other (normalizer endpoint)) q in
            record {
              size = ground (arith, names_eq, p, b.size);
              names = ground (
                arith,
                names_eq,
                p,
                b.names,
                b.size,
                e,
                length-insert endpoint (normalizer endpoint) m.endpoints.names,
              );
              present = λ k v l.
                  let l' : lookup k (insert endpoint (normalizer endpoint) m.endpoints.names)
                      ≡ some v =
                    ap (λ (n : NormalizedEndpoints). lookup k n.names) (sym (names_eq ∙ p)) ∙ l in
                  elim (Bool-cases (bytes_eq endpoint k)) [
                    | inl same ↦
                        subst
                          (λ x.
                            has x (modify_metrics normalizer f m endpoint).metrics_by_endpoint
                            ≡ true)
                          (ap or_other (
                            ground (
                              arith,
                              lookup-insert endpoint k (normalizer endpoint) m.endpoints.names,
                              same,
                              l',
                            )))
                          here
                    | inr apart ↦ kept (or_other v) (
                        b.present k v (
                          ground (
                            arith,
                            lookup-insert endpoint k (normalizer endpoint) m.endpoints.names,
                            apart,
                            l',
                          )))
                  ];
              few = ground (
                arith,
                names_eq,
                p,
                count,
                b.few,
                e,
                length-insert endpoint (normalizer endpoint) m.endpoints.names,
                has-modify_metrics f m endpoint (codes "other"),
              );
            }
      ]
