-- ===== src/RateLimiter/Credit.antt =====
-- The balance stays within its bounds, and an item is paid in full or refused.
use jaeger_client_go.Base.{ℕ, ◌≤◌, ◌≡◌, refl, true, false, ◌⊎◌, inl, inr, Bool-cases, arith}
use jaeger_client_go.Base.Float.{Float, Within, IsOrdered}
use jaeger_client_go.RateLimiter.{ReconfigurableRateLimiter, update_balance, check_credit}

pub record IsBalanced (F : Float) (rl : ReconfigurableRateLimiter F) : Type 0 where
  pub nonneg : F.leb (F.of_nat 0) rl.balance ≡ true
  pub capped : F.leb rl.balance rl.max_balance ≡ true
  pub rate : Within F rl.credits_per_second

module _ (F : Float) (o : IsOrdered F) (rl : ReconfigurableRateLimiter F) (now : ℕ)
    (later : rl.last_tick ≤ now) (b : IsBalanced F rl) where
  not_under :
      (a b : F.Num) → F.leb a a ≡ true → F.leb b b ≡ true → F.ltb a b ≡ false → F.leb b a ≡ true
  not_under a b ha hb under = ground (arith, under, o.ltb-not-leb a b ha hb)

  earned : F.Num
  earned = F.add rl.balance (F.mul (F.seconds rl.last_tick now) rl.credits_per_second)

  earned_nonneg : F.leb (F.of_nat 0) earned ≡ true
  unfolding earned
  earned_nonneg = o.add_nonneg _ _ b.nonneg (o.mul_nonneg _ _ (o.seconds-Within _ _ later) b.rate)

  pub update_balance-IsBalanced : IsBalanced F (update_balance F rl now)
  unfolding update_balance earned
  update_balance-IsBalanced = record {
    nonneg = elim (Bool-cases (F.ltb rl.max_balance earned)) [
      | inl over ↦ rw over (o.le_trans _ _ _ b.nonneg b.capped)
      | inr under ↦ rw under earned_nonneg
    ];
    capped = elim (Bool-cases (F.ltb rl.max_balance earned)) [
      | inl over ↦ rw over (o.refl_of_le _ _ b.capped).1
      | inr under ↦ rw under (
          not_under rl.max_balance earned (o.refl_of_le _ _ b.capped).1
            (o.refl_of_le _ _ earned_nonneg).1 under)
    ];
    rate = b.rate;
  }

  pay :
      (rl' : ReconfigurableRateLimiter F) (cost : F.Num)
      → IsBalanced F rl'
      → Within F cost
      → F.leb cost rl'.balance ≡ true
      → IsBalanced F (record rl' { balance = F.sub rl'.balance cost })
  pay rl' cost b' small enough = record {
    nonneg = o.sub_nonneg _ _ small enough;
    capped = o.le_trans _ _ _ (o.sub_le _ _ small (o.refl_of_le _ _ enough).1) b'.capped;
    rate = b'.rate;
  }

  -- On a limiter whose balance is between 0 and its maximum and whose rate is from 0 to 2 ^ 63, at
  -- a time not before its last tick, in the arithmetic of float64, whose laws are a hypothesis:
  -- `CheckCredit` of a cost from 0 to 2 ^ 63 keeps the balance between 0 and its maximum. It says
  -- yes exactly if the balance, or else the balance topped up to the present time, covers the cost,
  -- and then the cost is subtracted from that; when it says no nothing is subtracted.
  pub check_credit_lem :
      (cost : F.Num)
      → Within F cost
      → IsBalanced F (check_credit F rl cost now).0
        × (((check_credit F rl cost now) ≡ (record rl { balance = F.sub rl.balance cost }, true))
              × (F.leb cost rl.balance ≡ true)
            ⊎ ((check_credit F rl cost now ≡ (
              record (update_balance F rl now) {
                balance = F.sub (update_balance F rl now).balance cost;
              },
              true,
            ))
                × (F.leb cost rl.balance ≡ false)
                × (F.leb cost (update_balance F rl now).balance ≡ true))
            ⊎ ((check_credit F rl cost now ≡ (update_balance F rl now, false))
                × (F.leb cost rl.balance ≡ false)
                × (F.leb cost (update_balance F rl now).balance ≡ false)))
  unfolding check_credit
  check_credit_lem cost small = elim (Bool-cases (F.leb cost rl.balance)) [
    | inl enough ↦ rw enough (pay rl cost b small enough, inl (refl, refl))
    | inr short ↦ elim (Bool-cases (F.leb cost (update_balance F rl now).balance)) [
      | inl topped ↦
          rw (short, topped)
            (pay _ cost update_balance-IsBalanced small topped, inr (inl (refl, refl, refl)))
      | inr broke ↦ rw (short, broke) (update_balance-IsBalanced, inr (inr (refl, refl, refl)))
    ]
  ]
