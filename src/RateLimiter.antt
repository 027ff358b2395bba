-- ===== src/RateLimiter.antt =====
-- utils/rate_limiter.go: the leaky bucket. The current time, in nanoseconds, is an argument of each
-- call that reads the clock.
pub mod Credit
use jaeger_client_go.Base.{ℕ, Bool, true, false, if◌then◌else◌}
use jaeger_client_go.Base.Float.{Float}

pub record ReconfigurableRateLimiter (F : Float) : Type 0 where
  pub credits_per_second : F.Num
  pub balance : F.Num
  pub max_balance : F.Num
  pub last_tick : ℕ

module _ (F : Float) where
  unfoldable pub new_rate_limiter : F.Num → F.Num → ℕ → ReconfigurableRateLimiter F
  new_rate_limiter credits_per_second max_balance now = record {
    credits_per_second = credits_per_second;
    balance = max_balance;
    max_balance = max_balance;
    last_tick = now;
  }

  unfoldable pub update_balance : ReconfigurableRateLimiter F → ℕ → ReconfigurableRateLimiter F
  update_balance rl now =
      let balance = F.add rl.balance (F.mul (F.seconds rl.last_tick now) rl.credits_per_second) in
      record rl {
        last_tick = now;
        balance = if F.ltb rl.max_balance balance then rl.max_balance else balance;
      }

  unfoldable pub check_credit :
      ReconfigurableRateLimiter F → F.Num → ℕ → ReconfigurableRateLimiter F × Bool
  check_credit rl item_cost now =
      let rl' = update_balance rl now in
      if F.leb item_cost rl.balance
      then (record rl { balance = F.sub rl.balance item_cost }, true)
      else if F.leb item_cost rl'.balance
      then (record rl' { balance = F.sub rl'.balance item_cost }, true)
      else (rl', false)

  unfoldable pub update :
      ReconfigurableRateLimiter F → F.Num → F.Num → ℕ → ReconfigurableRateLimiter F
  update rl credits_per_second max_balance now =
      let rl' = update_balance rl now in
      record rl' {
        balance = F.div (F.mul rl'.balance max_balance) rl'.max_balance;
        credits_per_second = credits_per_second;
        max_balance = max_balance;
      }
