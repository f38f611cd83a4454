-- ===== src/Engine/RateLimiter.antt =====
-- src/engine/rate_limiter.rs: the token bucket for API calls and its lock after an HTTP 429.
-- An `Instant` is a number of nanoseconds, and `tokens` counts billionths of a token, so that
-- `elapsed * max_rps` is exact where the source rounds an `f64`.
pub mod Quota
pub mod Waiting
mod Examples
use syncgdrive.Base.{
  ℕ, ◌+◌, ◌-◌, ◌*◌, ◌/◌, Option, none, some, List, [], ◌∷◌, min, ltb, leb, ◌==◌, if◌then◌else◌,
}

abbrev pub billion : ℕ
billion = 1000000000

pub record RateState : Type 0 where
  pub tokens : ℕ
  pub last_refill : ℕ
  pub locked_until : Option ℕ

pub record ApiRateLimiter : Type 0 where
  pub max_rps : ℕ
  pub state : RateState

pub new : ℕ → ℕ → ApiRateLimiter
new max_rps now = record {
  max_rps = max_rps;
  state = record { tokens = max_rps * billion; last_refill = now; locked_until = none };
}

-- The tokens after the time that has passed, capped at `max_rps`.
pub refill : ℕ → ℕ → RateState → ℕ
refill max_rps now s =
    let tokens = s.tokens + (now - s.last_refill) * max_rps in
    if ltb (max_rps * billion) tokens then max_rps * billion else tokens

-- The bucket's branch of a round: a token is taken, or the time to wait for one is returned.
pub take_token : ℕ → ℕ → RateState → Option ℕ × RateState
unfolding refill
take_token max_rps now s =
    let tokens = refill max_rps now s in
    if leb billion tokens
    then (none, record s { tokens = tokens - billion; last_refill = now })
    else (
      some ((2 * (billion - tokens) + max_rps) / (2 * max_rps)),
      record s { tokens = tokens; last_refill = now },
    )

-- One pass of the loop of `acquire`, under the mutex: a delay, or none where the call may go.
pub acquire_round : ℕ → ℕ → RateState → Option ℕ × RateState
unfolding take_token
acquire_round max_rps now s = elim s.locked_until [
  | some lock_end ↦
      if ltb now lock_end
      then (some (lock_end - now), s)
      else (none, record s { locked_until = none })
  | none ↦ take_token max_rps now s
]

-- The loop: `readings` are what the clock shows at each pass. The result is the state, and the
-- readings left when the permission came, or none if it has not come by the last reading.
pub acquire_loop : ℕ → List ℕ → RateState → Option (List ℕ) × RateState
acquire_loop max_rps [] s = (none, s)
acquire_loop max_rps (now ∷ readings) s =
    let (delay, s') = acquire_round max_rps now s in
    elim delay [ none ↦ (some readings, s') | some d ↦ acquire_loop max_rps readings s' ]

pub acquire : ApiRateLimiter → List ℕ → Option (List ℕ) × ApiRateLimiter
acquire l readings =
    let (left, s) = acquire_loop l.max_rps readings l.state in
    if l.max_rps == 0 then (some readings, l) else (left, record l { state = s })

-- A 429: the lock is set, or moved to a later end.
pub handle_rate_limit : ℕ → ℕ → RateState → RateState
handle_rate_limit retry_after_secs now s =
    let lock_end = now + retry_after_secs * billion in
    elim s.locked_until [
      | some current_lock ↦
          if ltb current_lock lock_end then record s { locked_until = some lock_end } else s
      | none ↦ record s { locked_until = some lock_end }
    ]
