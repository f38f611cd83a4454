-- ===== src/Engine/Bandwidth/Examples.antt =====
-- Runs of the limiter at concrete instants.
use syncgdrive.Base.{◌+◌, ◌-◌, ◌*◌, ◌≤◌, ◌≡◌, refl, none, some, List, [], ◌∷◌, arith}
use syncgdrive.Engine.RateLimiter.{billion}
use syncgdrive.Engine.Bandwidth.{BucketState, BandwidthLimiter, acquire_round, acquire}
use syncgdrive.Engine.Bandwidth.Limits.{
  Request, run, run-rate, acquire-starves, acquire-after_delay,
}

abbrev full : BucketState
full = record { tokens = 2 * billion; last_refill = 0 }

abbrev requests : List Request
requests = record { bytes = 2; now = 1 } ∷ record { bytes = 1; now = 2000000000 } ∷ []

run-rate_example :
    (run 2 requests full).0 * billion ≤ full.tokens + 2 * (3000000000 - full.last_refill)
run-rate_example = run-rate 2 requests full 3000000000 (omega arith) (omega arith)

abbrev narrow : BandwidthLimiter
narrow = record { limit_bps = 2; state = full }

acquire-starves_example : (acquire narrow 3 (1 ∷ 5 * billion ∷ [])).0 ≡ none
acquire-starves_example =
    acquire-starves narrow 3 (1 ∷ 5 * billion ∷ []) (omega arith) (omega arith)

abbrev drained : BucketState
drained = record { tokens = 0; last_refill = 0 }

acquire_round-drained : (acquire_round 2 2 0 drained).0 ≡ some 1000000000
unfolding acquire_round
acquire_round-drained = refl

acquire-after_delay_example :
    (acquire_round 2 2 1000000001 (acquire_round 2 2 0 drained).1).0 ≡ none
acquire-after_delay_example =
    acquire-after_delay 2 2 0 1000000001 1000000000 drained (omega arith) (omega arith)
      acquire_round-drained (omega arith)
