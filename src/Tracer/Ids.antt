-- ===== src/Tracer/Ids.antt =====
-- The random IDs.
use jaeger_client_go.Base.{ℕ, ◌≡◌, ◌≢◌, List, [], ◌∷◌, none, some, All, arith}
use jaeger_client_go.Tracer.{random_id}

pub random_id-ne-zero : (l rest : List ℕ) (n : ℕ) → random_id l ≡ some (n, rest) → n ≢ 0
unfolding random_id
random_id-ne-zero [] rest n h = absurd (ground arith)
random_id-ne-zero (m ∷ l) rest n h = ground (arith, random_id-ne-zero l rest n)

pub random_id_total : (l : List ℕ) → random_id l ≡ none → All (λ n. n ≡ 0) l
unfolding random_id
random_id_total [] h = tt
random_id_total (m ∷ l) h = ground (arith, random_id_total l)
