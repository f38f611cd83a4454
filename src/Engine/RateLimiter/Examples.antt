-- ===== src/Engine/RateLimiter/Examples.antt =====
-- Runs of the limiter at concrete instants.
use syncgdrive.Base.{ℕ, ◌+◌, ◌-◌, ◌*◌, ◌≤◌, ◌≡◌, refl, none, some, List, [], ◌∷◌, arith}
use syncgdrive.Engine.RateLimiter.{
  RateState, ApiRateLimiter, billion, new, acquire_round, acquire, handle_rate_limit,
}
use syncgdrive.Engine.RateLimiter.Quota.{Event, round, too_many, run, run-quota}
use syncgdrive.Engine.RateLimiter.Waiting.{
  acquire-locked, acquire_round-after_delay, handle_rate_limit-extends,
}

abbrev events : List Event
events = round 0 ∷ round 1 ∷ too_many 2 5 ∷ round 3000000000 ∷ []

run-quota_example :
    (run 1 events (new 1 0).state).0 * billion ≤ (1 + 1) * billion + 1 * (3000000000 - 0)
run-quota_example = run-quota 1 0 3000000000 events (omega arith) (omega arith)

abbrev locked : ApiRateLimiter
locked = record {
  max_rps = 2;
  state = record { tokens = billion; last_refill = 0; locked_until = some 5 };
}

acquire-locked_example : acquire locked (1 ∷ 4 ∷ []) ≡ (none, locked)
acquire-locked_example = acquire-locked locked 5 (1 ∷ 4 ∷ []) (omega arith) refl (omega arith)

abbrev drained : RateState
drained = record { tokens = 0; last_refill = 0; locked_until = none }

acquire_round-drained : (acquire_round 1 0 drained).0 ≡ some 1000000000
unfolding acquire_round
acquire_round-drained = refl

acquire_round-after_delay_example :
    (acquire_round 1 1000000001 (acquire_round 1 0 drained).1).0 ≡ none
acquire_round-after_delay_example =
    acquire_round-after_delay 1 0 1000000001 1000000000 drained (omega arith) acquire_round-drained
      (omega arith)

handle_rate_limit-extends_example :
    (t : ℕ) × ((handle_rate_limit 1 7 locked.state).locked_until ≡ some t)
    × (7 + 1 * billion ≤ t)
    × ((t' : ℕ) → locked.state.locked_until ≡ some t' → t' ≤ t)
handle_rate_limit-extends_example = handle_rate_limit-extends 1 7 locked.state
