-- ===== src/Throttler/Credits.antt =====
-- The credits of the throttler.
use jaeger_client_go.Base.{
  ◌^◌, ◌==◌, ◌&&◌, not, Bool, true, false, if◌then◌else◌, List, [], ◌∷◌, map, Option, none, some,
  Bytes, bytes_eq, bytes_eq_iff, Map, insert, lookup-insert, length, ◌≡◌, refl, arith, Bool-cases,
  inl, inr,
}
use jaeger_client_go.Base.Float.{Float, IsOrdered}
use jaeger_client_go.Throttler.{
  CreditManager, Remote, credits_of, add_balances, fetch_credits, spend, fetch_and_spend, has_none,
  know, spend_answer, store_answer, is_allowed, refresh_credits,
}

module _ (F : Float) (o : IsOrdered F) where
  -- no operation owes credits
  abbrev pub IsNonneg : Map F.Num → Type 0
  IsNonneg m = (k : Bytes) → F.leb (F.of_nat 0) (credits_of F m k) ≡ true

  abbrev pub AreNonneg : List (Bytes × F.Num) → Type 0
  AreNonneg [] = Unit
  AreNonneg ((_, v) ∷ rest) = (F.leb (F.of_nat 0) v ≡ true) × AreNonneg rest

  credits_of-insert :
      (m : Map F.Num) (k j : Bytes) (v : F.Num)
      → credits_of F (insert k v m) j ≡ (if bytes_eq k j then v else credits_of F m j)
  unfolding credits_of
  credits_of-insert m k j v = ground (arith, lookup-insert k j v m)

  insert-IsNonneg :
      (m : Map F.Num) (k : Bytes) (v : F.Num)
      → IsNonneg m
      → F.leb (F.of_nat 0) v ≡ true
      → IsNonneg (insert k v m)
  insert-IsNonneg m k v h hv j = ground (arith, credits_of-insert m k j v, h j)

  add_balances-IsNonneg :
      (m : Map F.Num) (balances : List (Bytes × F.Num))
      → IsNonneg m
      → AreNonneg balances
      → IsNonneg (add_balances F m balances)
  unfolding add_balances
  add_balances-IsNonneg m [] h b = h
  add_balances-IsNonneg m ((k, v) ∷ rest) h (bv, b) =
      add_balances-IsNonneg (insert k (F.add (credits_of F m k) v) m) rest
        (insert-IsNonneg m k (F.add (credits_of F m k) v) h (o.add_nonneg _ _ (h k) bv)) b

module _ (F : Float) (o : IsOrdered F) (M : CreditManager F) where
  -- every balance in an answer of the agent
  abbrev pub Gives : Type 0
  Gives =
      (a : M.Agent) (uuid : Bytes) (operations : List Bytes) (balances : List (Bytes × F.Num))
      → (M.fetch a uuid operations).1 ≡ some balances
      → AreNonneg F o balances

  spend-IsNonneg :
      (operation : Bytes) (t : Remote F M)
      → IsNonneg F o t.credits
      → IsNonneg F o (spend F M operation t).0.credits
  unfolding spend
  spend-IsNonneg operation t h =
      elim (Bool-cases (F.ltb (credits_of F t.credits operation) (F.of_nat 1))) [
        | inl low ↦ rw low h
        | inr enough ↦ rw enough (
            insert-IsNonneg F o t.credits operation _ h (
              o.sub_nonneg _ _
                (o.of_nat_mono 0 1 (omega arith), o.of_nat_mono 1 (2 ^ 63) (omega arith))
                (ground (
                  arith,
                  enough,
                  o.ltb-not-leb (credits_of F t.credits operation) (F.of_nat 1)
                      (o.refl_of_le _ _ (h operation)).1
                      (o.refl_of_le _ _ (o.of_nat_mono 1 1 (omega arith))).1,
                ))))
      ]

  fetch_credits_lem :
      (operations : List Bytes) (t : Remote F M)
      → Gives
      → ((fetch_credits F M operations t).0.credits ≡ t.credits)
        × ((balances : List (Bytes × F.Num))
            → (fetch_credits F M operations t).1 ≡ some balances
            → AreNonneg F o balances)
  unfolding fetch_credits
  fetch_credits_lem operations t gives = elim (Bool-cases (bytes_eq t.uuid [])) [
    | inl unset ↦ rw unset (refl, λ balances e. absurd (ground (arith, e)))
    | inr known ↦ rw known (refl, λ balances e. gives t.agent t.uuid operations balances e)
  ]

  spend_answer-IsNonneg :
      (operation : Bytes) (t : Remote F M) (answer : Option (List (Bytes × F.Num)))
      → IsNonneg F o t.credits
      → ((balances : List (Bytes × F.Num)) → answer ≡ some balances → AreNonneg F o balances)
      → IsNonneg F o (spend_answer F M operation t answer).0.credits
  unfolding spend_answer
  spend_answer-IsNonneg operation t none h g = h
  spend_answer-IsNonneg operation t (some []) h g = h
  spend_answer-IsNonneg operation t (some (b ∷ rest)) h g =
      spend-IsNonneg operation _ (add_balances-IsNonneg F o t.credits (b ∷ rest) h (g _ refl))

  store_answer-IsNonneg :
      (t : Remote F M) (answer : Option (List (Bytes × F.Num)))
      → IsNonneg F o t.credits
      → ((balances : List (Bytes × F.Num)) → answer ≡ some balances → AreNonneg F o balances)
      → IsNonneg F o (store_answer F M t answer).credits
  unfolding store_answer
  store_answer-IsNonneg t none h g = h
  store_answer-IsNonneg t (some balances) h g =
      add_balances-IsNonneg F o t.credits balances h (g _ refl)

  know-IsNonneg :
      (operation : Bytes) (t : Remote F M)
      → IsNonneg F o t.credits
      → IsNonneg F o (know F M operation t).credits
  unfolding know credits_of
  know-IsNonneg operation t h k = ground (
    arith,
    h k,
    lookup-insert operation k (F.of_nat 0) t.credits,
    o.of_nat_mono 0 0 (omega arith),
  )

  fetch_and_spend-IsNonneg :
      (operation : Bytes) (t : Remote F M)
      → Gives
      → IsNonneg F o t.credits
      → IsNonneg F o (fetch_and_spend F M operation t).0.credits
  unfolding fetch_and_spend
  fetch_and_spend-IsNonneg operation t gives h =
      let (same, answers) = fetch_credits_lem (operation ∷ []) t gives in
      spend_answer-IsNonneg operation _ _ (rw same h) answers

  either-IsNonneg :
      (b : Bool) (x y : Remote F M × Bool)
      → IsNonneg F o x.0.credits
      → IsNonneg F o y.0.credits
      → IsNonneg F o (if b then x else y).0.credits
  either-IsNonneg true x y hx hy = hx
  either-IsNonneg false x y hx hy = hy

  -- In the arithmetic of float64, whose laws are a hypothesis, if the agent never answers with a
  -- negative balance and no operation has negative credits, then none has after a question whether
  -- an operation is allowed.
  pub is_allowed-IsNonneg :
      (operation : Bytes) (t : Remote F M)
      → Gives
      → IsNonneg F o t.credits
      → IsNonneg F o (is_allowed F M operation t).0.credits
  unfolding is_allowed
  is_allowed-IsNonneg operation t gives h =
      let known = know-IsNonneg operation t h in
      either-IsNonneg (has_none F M t.credits operation) _ _
        (either-IsNonneg (not t.synchronous_initialization) _ _ known
          (fetch_and_spend-IsNonneg operation (know F M operation t) gives known))
        (spend-IsNonneg operation t h)

  -- In the arithmetic of float64, whose laws are a hypothesis, if the agent never answers with a
  -- negative balance and no operation has negative credits, then none has after a poll of the
  -- agent.
  pub refresh_credits-IsNonneg :
      (t : Remote F M)
      → Gives
      → IsNonneg F o t.credits
      → IsNonneg F o (refresh_credits F M t).credits
  unfolding refresh_credits
  refresh_credits-IsNonneg t gives h =
      let (same, answers) = fetch_credits_lem (map (λ e. e.0) t.credits) t gives in
      elim (Bool-cases (length t.credits == 0)) [
        | inl empty ↦ rw empty h
        | inr some_known ↦ rw some_known (store_answer-IsNonneg _ _ (rw same h) answers)
      ]

module _ (F : Float) (M : CreditManager F) where
  -- Without synchronous requests an operation is allowed exactly if it is known, its credits are
  -- not 0 and not below 1, and then one credit of it is spent; the credits of no other operation
  -- change.
  pub is_allowed_lem :
      (operation k : Bytes) (t : Remote F M)
      → t.synchronous_initialization ≡ false
      → ((is_allowed F M operation t).1 ≡ (
          not (has_none F M t.credits operation)
          && not (F.ltb (credits_of F t.credits operation) (F.of_nat 1))))
        × (credits_of F (is_allowed F M operation t).0.credits k ≡ (
            if (is_allowed F M operation t).1 && bytes_eq operation k
            then F.sub (credits_of F t.credits k) (F.of_nat 1)
            else credits_of F t.credits k))
  unfolding is_allowed know spend credits_of
  is_allowed_lem operation k t async = ground (
    arith,
    async,
    bytes_eq_iff operation k,
    lookup-insert operation k (F.of_nat 0) t.credits,
    lookup-insert operation k (F.sub (credits_of F t.credits operation) (F.of_nat 1)) t.credits,
  )
