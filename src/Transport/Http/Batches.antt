-- ===== src/Transport/Http/Batches.antt =====
-- The batches of the HTTP transports.
use jaeger_client_go.Base.{
  ℕ, ◌+◌, ◌<◌, ◌≡◌, refl, sym, inl, inr, leb, ◌==◌, true, false, if◌then◌else◌, map, ap, ◌∙◌,
  append_assoc, append-nil, Bool-cases, List, [], ◌∷◌, ◌++◌, none, some, Option-cases, length,
  length-append, All, ◌⊎◌, arith,
}
use mathlib.Core.Path.{subst}
use jaeger_client_go.Transport.{Sent}
use jaeger_client_go.Transport.Http.{Collector, HttpTransport, send, flush, append}
use jaeger_client_go.Transport.Http.Post.{
  address, post_all, process_with, process_of, process_of-some, given, posted, append_lem,
}
use jaeger_client_go.Transport.Http.Counts.{append_counts}

module _ {Span : Type 0} (C : Collector Span) where
  send-batch_size : (c : HttpTransport C) → (send C c).0.batch_size ≡ c.batch_size
  unfolding send
  send-batch_size c = elim (Option-cases (C.serialize c.process c.spans)) [
    | inl e ↦ rw (e, send) refl
    | inr (body, e) ↦ rw (e, send) (ground arith)
  ]

  append-batch_size : (c : HttpTransport C) (x : Span) → (append C c x).0.batch_size ≡ c.batch_size
  unfolding append flush
  append-batch_size c x = ground (
    arith,
    send-batch_size (record c {
      process = elim c.process [ none ↦ some (C.build_process x) | some p ↦ some p ];
      spans = c.spans ++ C.build_span x ∷ [];
    }),
  )

  -- what one call gives, below the batch size
  append_next :
      (c : HttpTransport C) (x : Span)
      → length c.spans < c.batch_size
      → (length (append C c x).0.spans < c.batch_size)
        × (((append C c x).1.count ≡ 0) ⊎ ((append C c x).1.count ≡ c.batch_size))
  unfolding append flush
  append_next c x h = ground (arith, length-append c.spans (C.build_span x ∷ []))

  -- the calls of Append for some spans, and what they return
  abbrev pub append_all : HttpTransport C → List Span → HttpTransport C × List Sent
  append_all c [] = (c, [])
  append_all c (x ∷ xs) =
      let r = append C c x in let rest = append_all (r.0) xs in (rest.0, r.1 ∷ rest.1)

  abbrev pub total : List Sent → ℕ
  total [] = 0
  total (r ∷ rs) = r.count + total rs

  -- what the calls that posted told
  abbrev pub told : List Sent → List Sent
  told [] = []
  told (r ∷ rs) = let rest = told rs in if r.count == 0 then rest else r ∷ rest

  abbrev pub joined : List (List C.ThriftSpan) → List C.ThriftSpan
  joined [] = []
  joined (batch ∷ batches) = batch ++ joined batches

  -- Of the transport and the answers that the calls for `xs` have led to: the spans have been
  -- posted in batches of just the batch size, in order, and the rest is in the buffer.
  pub record Posts (c : HttpTransport C) (xs : List Span) (r : HttpTransport C × List Sent)
      : Type 0 where
    pub batches : List (List C.ThriftSpan)
    pub full : All (λ (batch : List C.ThriftSpan). length batch ≡ c.batch_size) batches
    pub all : c.spans ++ map C.build_span xs ≡ joined batches ++ r.0.spans
    pub posts : post_all C (address C c) (process_of C c xs) batches c.net ≡ (r.0.net, told (r.1))

  full-length :
      (c : HttpTransport C) (x : Span)
      → length c.spans < c.batch_size
      → leb c.batch_size (length (c.spans ++ C.build_span x ∷ [])) ≡ true
      → (length (c.spans ++ C.build_span x ∷ []) ≡ c.batch_size)
        × ((length (c.spans ++ C.build_span x ∷ []) == 0) ≡ false)
  full-length c x h full = ground (arith, length-append c.spans (C.build_span x ∷ []), full)

  posted-Posts :
      (c : HttpTransport C) (x : Span) (xs : List Span) (r : HttpTransport C × List Sent)
      → length c.spans < c.batch_size
      → leb c.batch_size (length (c.spans ++ C.build_span x ∷ [])) ≡ true
      → Posts (posted C c x).0 xs r
      → Posts c (x ∷ xs) (r.0, (posted C c x).1 ∷ r.1)
  posted-Posts c x xs r h full p =
      let (size, nonzero) = full-length c x h full in
      let batch = c.spans ++ C.build_span x ∷ [] in
      record {
        batches = batch ∷ p.batches;
        full = (size, p.full);
        all =
            sym (append_assoc c.spans (C.build_span x ∷ []) (map C.build_span xs))
            ∙ ap (λ rest. batch ++ rest) p.all
            ∙ sym (append_assoc batch (joined p.batches) r.0.spans);
        posts =
            let same = process_of-some C (posted C c x).0 (process_with C c x) xs refl in
            let later =
              subst
                (λ q.
                  post_all C (address C c) q p.batches (posted C c x).0.net ≡ (r.0.net, told (r.1)))
                same p.posts in
            rw nonzero (λ i. ((later i).0, (posted C c x).1 ∷ (later i).1));
      }

  given-Posts :
      (c : HttpTransport C) (x : Span) (xs : List Span) (r : HttpTransport C × List Sent)
      → Posts (given C c x) xs r
      → Posts c (x ∷ xs) (r.0, record { count = 0; failed = false } ∷ r.1)
  given-Posts c x xs r p = record {
    batches = p.batches;
    full = p.full;
    all = sym (append_assoc c.spans (C.build_span x ∷ []) (map C.build_span xs)) ∙ p.all;
    posts =
        subst (λ q. post_all C (address C c) q p.batches c.net ≡ (r.0.net, told (r.1)))
          (process_of-some C (given C c x) (process_with C c x) xs refl) p.posts;
  }

  append_all-Posts :
      (c : HttpTransport C) (xs : List Span)
      → length c.spans < c.batch_size
      → Posts c xs (append_all c xs)
  append_all-Posts c [] h = record {
    batches = [];
    full = tt;
    all = append-nil c.spans;
    posts = refl;
  }
  append_all-Posts c (x ∷ xs) h =
      let next = append_lem C c x in
      let below = (append_next c x h).0 in
      let size = append-batch_size c x in
      let later = append_all-Posts (append C c x).0 xs (omega (arith, size, below)) in
      elim (Bool-cases (leb c.batch_size (length (c.spans ++ C.build_span x ∷ [])))) [
        | inl full ↦
            let e : append C c x ≡ posted C c x = next ∙ rw full refl in
            subst
              (λ (y : HttpTransport C × Sent).
                Posts c (x ∷ xs) ((append_all (y.0) xs).0, y.1 ∷ (append_all (y.0) xs).1))
              (sym e)
              (posted-Posts c x xs (append_all (posted C c x).0 xs) h full (
                subst (λ (y : HttpTransport C × Sent). Posts (y.0) xs (append_all (y.0) xs)) e
                  later))
        | inr room ↦
            let e : append C c x ≡ (given C c x, record { count = 0; failed = false }) =
              next ∙ rw room refl in
            subst
              (λ (y : HttpTransport C × Sent).
                Posts c (x ∷ xs) ((append_all (y.0) xs).0, y.1 ∷ (append_all (y.0) xs).1))
              (sym e)
              (given-Posts c x xs (append_all (given C c x) xs) (
                subst (λ (y : HttpTransport C × Sent). Posts (y.0) xs (append_all (y.0) xs)) e
                  later))
      ]

  append_all_counts :
      (c : HttpTransport C) (xs : List Span)
      → length c.spans < c.batch_size
      → (length (append_all c xs).0.spans < c.batch_size)
        × (length c.spans + length xs
            ≡ length (append_all c xs).0.spans + total (append_all c xs).1)
        × All (λ (r : Sent). (r.count ≡ 0) ⊎ (r.count ≡ c.batch_size)) (append_all c xs).1
  append_all_counts c [] h = (h, omega arith, tt)
  append_all_counts c (x ∷ xs) h =
      let (below, whole) = append_next c x h in
      let size = append-batch_size c x in
      let (below', sum, all) = append_all_counts (append C c x).0 xs (omega (arith, size, below)) in
      (
        omega (arith, size, below'),
        omega (arith, sum, append_counts C c x),
        (
          whole,
          subst
              (λ (n : ℕ).
                All (λ (r : Sent). (r.count ≡ 0) ⊎ (r.count ≡ n))
                  (append_all (append C c x).0 xs).1)
              size all,
        ),
      )

  -- However many spans are appended to a transport with fewer of them than its batch size: What was
  -- buffered and appended is posted in order, in batches of exactly the batch size, by one request
  -- each, and the rest stays in the buffer, which is below the batch size. Every call counts
  -- nothing or exactly one batch, and the answers of the calls that count are those of the
  -- requests, failures included.
  pub append_all_lem :
      (c : HttpTransport C) (xs : List Span)
      → length c.spans < c.batch_size
      → (length (append_all c xs).0.spans < c.batch_size)
        × (length c.spans + length xs
            ≡ length (append_all c xs).0.spans + total (append_all c xs).1)
        × All (λ (r : Sent). (r.count ≡ 0) ⊎ (r.count ≡ c.batch_size)) (append_all c xs).1
        × Posts c xs (append_all c xs)
  append_all_lem c xs h =
      let (below, sum, whole) = append_all_counts c xs h in
      (below, sum, whole, append_all-Posts c xs h)
