-- ===== src/Throttler.antt =====
-- internal/throttler/remote/throttler.go: the throttler of debug spans, which spends credits that
-- it fetches from the agent. The agent's answers are a parameter; the mutex makes each operation
-- one step.
pub mod Credits
use jaeger_client_go.Base.{
  ℕ, zero, suc, ◌+◌, ◌==◌, ◌||◌, ◌&&◌, not, Bool, true, false, if◌then◌else◌, List, [], ◌∷◌, map,
  Option, none, some, Bytes, bytes_eq, Map, lookup, insert, length,
}
use jaeger_client_go.Base.Float.{Float}

-- The agent: the answer to a request with a UUID and a list of operations, `none` for a failed one.
pub record CreditManager (F : Float) : Type 1 where
  pub Agent : Type 0
  pub fetch : Agent → Bytes → List Bytes → Agent × Option (List (Bytes × F.Num))

-- An empty `uuid` stands for one that is not set.
pub record Throttler (F : Float) (Agent : Type 0) : Type 0 where
  pub uuid : Bytes
  pub credits : Map F.Num
  pub synchronous_initialization : Bool
  pub agent : Agent
  pub throttled_debug_spans : ℕ
  pub throttler_update_success : ℕ
  pub throttler_update_failure : ℕ

module _ (F : Float) where
  unfoldable pub credits_of : Map F.Num → Bytes → F.Num
  credits_of m operation = elim (lookup operation m) [ none ↦ F.of_nat 0 | some v ↦ v ]

  unfoldable pub add_balances : Map F.Num → List (Bytes × F.Num) → Map F.Num
  add_balances m [] = m
  add_balances m ((operation, balance) ∷ rest) =
      add_balances (insert operation (F.add (credits_of m operation) balance) m) rest

module _ (F : Float) (M : CreditManager F) where
  abbrev pub Remote : Type 0
  Remote = Throttler F M.Agent

  unfoldable pub set_process : Bytes → Remote → Remote
  set_process uuid t = if bytes_eq uuid [] then t else record t { uuid = uuid }

  unfoldable pub fetch_credits : List Bytes → Remote → Remote × Option (List (Bytes × F.Num))
  fetch_credits operations t =
      let (agent, answer) = M.fetch t.agent t.uuid operations in
      if bytes_eq t.uuid [] then (t, none) else (record t { agent = agent }, answer)

  -- `isAllowed`
  unfoldable pub spend : Bytes → Remote → Remote × Bool
  spend operation t =
      let credits = credits_of F t.credits operation in
      if F.ltb credits (F.of_nat 1)
      then (record t { throttled_debug_spans = t.throttled_debug_spans + 1 }, false)
      else (record t { credits = insert operation (F.sub credits (F.of_nat 1)) t.credits }, true)

  -- what follows the synchronous request for an operation that has no credits
  unfoldable pub spend_answer : Bytes → Remote → Option (List (Bytes × F.Num)) → Remote × Bool
  spend_answer operation t none = (t, false)
  spend_answer operation t (some []) = (t, false)
  spend_answer operation t (some (b ∷ rest)) =
      spend operation (record t { credits = add_balances F t.credits (b ∷ rest) })

  -- whether an operation has no credits, or is not known
  unfoldable pub has_none : Map F.Num → Bytes → Bool
  has_none m operation = elim (lookup operation m) [ none ↦ true | some v ↦ F.beq v (F.of_nat 0) ]

  -- An operation that is not known is stored with no credits.
  unfoldable pub know : Bytes → Remote → Remote
  know operation t = elim (lookup operation t.credits) [
    | none ↦ record t { credits = insert operation (F.of_nat 0) t.credits }
    | some _ ↦ t
  ]

  unfoldable pub fetch_and_spend : Bytes → Remote → Remote × Bool
  fetch_and_spend operation t =
      let (fetched, answer) = fetch_credits (operation ∷ []) t in
      spend_answer operation fetched answer

  -- `IsAllowed`
  unfoldable pub is_allowed : Bytes → Remote → Remote × Bool
  unfolding know
  is_allowed operation t =
      let known = know operation t in
      if has_none t.credits operation
      then if not t.synchronous_initialization
        then (record known { throttled_debug_spans = known.throttled_debug_spans + 1 }, false)
        else fetch_and_spend operation known
      else spend operation t

  -- `operations`, in some order
  abbrev pub operations : Map F.Num → List Bytes
  operations m = map (λ e. e.0) m

  unfoldable pub store_answer : Remote → Option (List (Bytes × F.Num)) → Remote
  store_answer t none = record t { throttler_update_failure = t.throttler_update_failure + 1 }
  store_answer t (some balances) = record t {
    throttler_update_success = t.throttler_update_success + 1;
    credits = add_balances F t.credits balances;
  }

  unfoldable pub refresh_credits : Remote → Remote
  refresh_credits t =
      let (fetched, answer) = fetch_credits (operations t.credits) t in
      if length t.credits == 0 then t else store_answer fetched answer
