-- ===== src/Examples/Schedules.antt =====
-- retrievalmarket/types.go at concrete terms.
use go_fil_markets.Prelude.{
  ℕ, suc, ◌*◌, ◌-◌, ◌<◌, ◌≡◌, refl, false, some, arith, if◌then◌else◌, ltb,
}
use go_fil_markets.Prelude.Int.{pos, ◌-ℤ◌, ◌/ℤ◌}
use go_fil_markets.Retrieval.Params.{
  interval_lower_bound, next_interval_from, outstanding_balance, next_interval, next_loop,
  lower_loop,
}
use go_fil_markets.Retrieval.Params.Schedule.{interval_paid_for, for_transfer}
use go_fil_markets.Retrieval.Params.Thresholds.{threshold, LastBelow, intervals-LastBelow}
use go_fil_markets.Retrieval.Params.Balance.{payment_settles, data_limit_exact}
use go_fil_markets.Examples.Data.{terms}

intervals-LastBelow_example :
    (j : ℕ) × LastBelow terms 12 j
    × (interval_lower_bound terms 12 ≡ some (threshold terms j))
    × (next_interval_from terms 12 ≡ some (threshold terms (suc j)))
intervals-LastBelow_example = intervals-LastBelow terms 12 (omega arith) (omega arith)

lower_bound_of_12 : interval_lower_bound terms 12 ≡ some 10
unfolding interval_lower_bound lower_loop
lower_bound_of_12 = refl

next_after_25 : next_interval_from terms 25 ≡ some 45
unfolding next_interval_from next_loop
next_after_25 = refl

payment_settles_example : outstanding_balance terms (pos 43) 12 false ≡ some (pos 0)
payment_settles_example = payment_settles terms 3 7 refl refl 12 false (omega arith) (omega arith)

pub limit_of_37 : next_interval terms (pos 37) ≡ some 25
unfolding next_interval interval_paid_for for_transfer next_interval_from next_loop ◌-ℤ◌ ◌/ℤ◌
limit_of_37 = refl

data_limit_exact_example :
    (10 < 25)
    × (outstanding_balance terms (pos 37) 25 false
        ≡ some (pos (if ltb 25 25 then 0 else (25 - 10) * 3)))
data_limit_exact_example =
    data_limit_exact terms 3 7 refl refl 10 25 25 (omega arith) (omega arith) (omega arith)
      (omega arith) limit_of_37 (omega arith)
