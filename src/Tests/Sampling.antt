-- ===== src/Tests/Sampling.antt =====
-- The rate limiter, the samplers and the throttler, on numbers that are natural.
use jaeger_client_go.Base.{
  ℕ, ◌+◌, ◌-◌, ◌*◌, ◌^◌, ◌≤◌, ltb, leb, ◌==◌, ◌&&◌, not, ◌≡◌, refl, ◌⊎◌, true, false, if◌then◌else◌,
  [], ◌∷◌, none, some, codes, bytes_eq, length, arith,
}
use Prim.Native.Nat.{max}
use native.Mathlib.Nat.{mul-le-mul_left}
use mathlib.Core.Option.{some-injective}
use mathlib.Core.Path.{subst}
use jaeger_client_go.Base.Float.{Float, IsOrdered}
use jaeger_client_go.SpanContext.{TraceId}
use jaeger_client_go.RateLimiter.{ReconfigurableRateLimiter, update_balance, check_credit}
use jaeger_client_go.RateLimiter.Credit.{IsBalanced, check_credit_lem}
use jaeger_client_go.Sampler.{init_probabilistic, probabilistic_is_sampled}
use jaeger_client_go.Sampler.Boundary.{probabilistic_is_sampled_mono}
use jaeger_client_go.Sampler.Operations.{
  PerOperationSampler, PerOperationStrategies, new_per_operation_sampler, try_sampling,
}
use jaeger_client_go.Sampler.Operations.Capacity.{length-try_sampling}
use jaeger_client_go.Sampler.{out_of_range}
use jaeger_client_go.Sampler.Remote as Remotely
use jaeger_client_go.Sampler.Remote.Poll.{is_probabilistic, update_sampler-probabilistic}
use jaeger_client_go.Throttler.{
  CreditManager, Remote, credits_of, has_none, is_allowed, refresh_credits,
}
use jaeger_client_go.Throttler.Credits.{
  IsNonneg, AreNonneg, Gives, is_allowed-IsNonneg, refresh_credits-IsNonneg, is_allowed_lem,
}

abbrev natural : Float
natural = record {
  Num = ℕ;
  of_nat = λ n. n;
  floor = λ n. n;
  add = λ a b. a + b;
  sub = λ a b. a - b;
  mul = λ a b. a * b;
  div = λ a b. a;
  leb = leb;
  ltb = ltb;
  beq = λ a b. a == b;
  max = λ a b. if leb a b then b else a;
  min = λ a b. if leb a b then a else b;
  seconds = λ a b. if leb (b - a) (2 ^ 63) then b - a else 2 ^ 63;
}

leb_iff : (a b : ℕ) → leb a b ≡ true → a ≤ b
leb_iff a b h = ground arith

le-leb : (a b : ℕ) → a ≤ b → leb a b ≡ true
le-leb a b h = ground arith

mul-le : (n a : ℕ) → a ≤ 1 → n * a ≤ n
mul-le n a h = let most : n * a ≤ n * 1 = mul-le-mul_left n h in omega (arith, most)

-- whole seconds, which a duration of 64 bits bounds
abbrev seconds_of : ℕ → ℕ → ℕ
seconds_of a b = if leb (b - a) (2 ^ 63) then b - a else 2 ^ 63

seconds_small : (a b : ℕ) → leb (seconds_of a b) (2 ^ 63) ≡ true
seconds_small a b = ground arith

natural-IsOrdered : IsOrdered natural
natural-IsOrdered = record {
  refl_of_le = λ a b h. (ground arith, ground arith);
  le_trans = λ a b c h k. ground arith;
  ltb-not-leb = λ a b h k. ground arith;
  of_nat_mono = λ m n h. ground arith;
  sub_nonneg = λ a b h k. ground arith;
  sub_le = λ a b h k. ground arith;
  add_nonneg = λ a b h k. ground arith;
  mul_nonneg = λ a b h k. le-leb 0 (a * b) (omega arith);
  mul_mono = λ n a b h k l m. le-leb (n * a) (n * b) (mul-le-mul_left n (leb_iff a b l));
  mul_le = λ n a h k l. le-leb (n * a) n (mul-le n a (leb_iff a 1 l));
  min_mono = λ a b n h. ground arith;
  min_le = λ a n h. ground arith;
  max_mono = λ a b n h. ground arith;
  le_max = λ a n h. ground arith;
  max_le = λ a b c h k. ground arith;
  floor_mono = λ a b h k l. leb_iff a b l;
  seconds-Within = λ a b h. (le-leb 0 (seconds_of a b) (omega arith), seconds_small a b);
}

abbrev limiter : ReconfigurableRateLimiter natural
limiter = record { credits_per_second = 2; balance = 1; max_balance = 3; last_tick = 0 }

abbrev limiter-IsBalanced : IsBalanced natural limiter
limiter-IsBalanced = record { nonneg = refl; capped = refl; rate = (refl, refl) }

check_credit_lem_example :
    IsBalanced natural (check_credit natural limiter 2 5).0
    × (((check_credit natural limiter 2 5) ≡ (record limiter { balance = natural.sub 1 2 }, true))
          × (leb 2 1 ≡ true)
        ⊎ ((check_credit natural limiter 2 5 ≡ (
          record (update_balance natural limiter 5) {
            balance = natural.sub (update_balance natural limiter 5).balance 2;
          },
          true,
        ))
            × (leb 2 1 ≡ false)
            × (leb 2 (update_balance natural limiter 5).balance ≡ true))
        ⊎ ((check_credit natural limiter 2 5 ≡ (update_balance natural limiter 5, false))
            × (leb 2 1 ≡ false)
            × (leb 2 (update_balance natural limiter 5).balance ≡ false)))
check_credit_lem_example =
    check_credit_lem natural natural-IsOrdered limiter 5 (omega arith) limiter-IsBalanced 2
      (refl, refl)

abbrev id : TraceId
id = record { high = 0; low = 0 }

sampled_at_0 : (probabilistic_is_sampled natural (init_probabilistic natural 0) id).0 ≡ true
unfolding probabilistic_is_sampled init_probabilistic
sampled_at_0 = refl

probabilistic_is_sampled_mono_example :
    (probabilistic_is_sampled natural (init_probabilistic natural 1) id).0 ≡ true
probabilistic_is_sampled_mono_example =
    probabilistic_is_sampled_mono natural natural-IsOrdered 0 1 id refl sampled_at_0

abbrev strategies : PerOperationStrategies ℕ
strategies = record {
  default_sampling_probability = 1;
  default_lower_bound = 1;
  per_operation = record { operation = codes "get"; sampling_rate = 1 } ∷ [];
}

abbrev sampler : PerOperationSampler natural
sampler = new_per_operation_sampler natural 1 false strategies 0

length-try_sampling_example :
    length (try_sampling natural sampler true id (codes "put") 5).0.samplers
    ≤ max (length sampler.samplers) sampler.max_operations
length-try_sampling_example = length-try_sampling natural sampler (codes "put") 5 true id

-- an agent that gives 3 credits for every operation
abbrev manager : CreditManager natural
manager = record {
  Agent = Unit {0};
  fetch = λ a uuid operations. (a, some ((codes "get", 3) ∷ []));
}

manager-Gives : Gives natural natural-IsOrdered manager
manager-Gives a uuid operations balances e =
    subst (AreNonneg natural natural-IsOrdered) (some-injective _ _ e) (refl, tt)

abbrev throttler : Remote natural manager
throttler = record {
  uuid = codes "me";
  credits = (codes "get", 1) ∷ [];
  synchronous_initialization = false;
  agent = tt;
  throttled_debug_spans = 0;
  throttler_update_success = 0;
  throttler_update_failure = 0;
}

throttler-IsNonneg : IsNonneg natural natural-IsOrdered throttler.credits
throttler-IsNonneg k = le-leb 0 (credits_of natural throttler.credits k) (omega arith)

is_allowed-IsNonneg_example :
    IsNonneg natural natural-IsOrdered
      (is_allowed natural manager (codes "put") throttler).0.credits
is_allowed-IsNonneg_example =
    is_allowed-IsNonneg natural natural-IsOrdered manager (codes "put") throttler manager-Gives
      throttler-IsNonneg

refresh_credits-IsNonneg_example :
    IsNonneg natural natural-IsOrdered (refresh_credits natural manager throttler).credits
refresh_credits-IsNonneg_example =
    refresh_credits-IsNonneg natural natural-IsOrdered manager throttler manager-Gives
      throttler-IsNonneg

is_allowed_lem_example :
    ((is_allowed natural manager (codes "get") throttler).1 ≡ (
      not (has_none natural manager throttler.credits (codes "get"))
      && not (ltb (credits_of natural throttler.credits (codes "get")) 1)))
    × (credits_of natural
          (is_allowed natural manager (codes "get") throttler).0.credits
          (codes "get")
        ≡ (if (is_allowed natural manager (codes "get") throttler).1
              && bytes_eq (codes "get") (codes "get")
            then credits_of natural throttler.credits (codes "get") - 1
            else credits_of natural throttler.credits (codes "get")))
is_allowed_lem_example = is_allowed_lem natural manager (codes "get") (codes "get") throttler refl

-- a sampler that is controlled remotely, and an answer with a rate
abbrev controlled : Remotely.RemotelyControlledSampler natural
controlled = record {
  sampler = Remotely.ActiveSampler.other 0;
  updaters = Remotely.default_updaters natural 0 false;
  query_failures = 0;
  update_failures = 0;
  retrieved = 0;
  updates = 0;
}

abbrev answer : Remotely.SamplingStrategy natural
answer = record {
  probabilistic_sampling = some 1;
  rate_limiting_sampling = some 5;
  operation_sampling = none;
}

update_sampler-probabilistic_example :
    Remotely.update_sampler natural controlled (Remotely.Response.parsed answer) 3 ≡ (
      if is_probabilistic natural controlled.sampler && out_of_range natural 1
      then record controlled { retrieved = 0 + 1; update_failures = 0 + 1 }
      else record controlled {
        retrieved = 0 + 1;
        sampler = Remotely.ActiveSampler.probabilistic (init_probabilistic natural 1);
        updates = 0 + 1;
      })
update_sampler-probabilistic_example =
    update_sampler-probabilistic natural controlled 0 false answer 1 3 refl refl refl
