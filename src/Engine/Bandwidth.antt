-- ===== src/Engine/Bandwidth.antt =====
-- src/engine/bandwidth.rs: `BandwidthLimiter`, the token bucket for bytes. An `Instant` is a number
-- of nanoseconds, and `tokens` counts billionths of a byte, so that `elapsed * limit_bps` is exact
-- where the source rounds an `f64`.
pub mod Limits
mod Examples
use syncgdrive.Base.{
  ℕ, ◌+◌, ◌-◌, ◌*◌, ◌/◌, ◌%◌, ◌^◌, Option, none, some, List, [], ◌∷◌, ltb, leb, ◌==◌, if◌then◌else◌,
}
use syncgdrive.Engine.RateLimiter.{billion}

pub record BucketState : Type 0 where
  pub tokens : ℕ
  pub last_refill : ℕ

pub record BandwidthLimiter : Type 0 where
  pub limit_bps : ℕ
  pub state : BucketState

unfoldable pub new : ℕ → ℕ → BandwidthLimiter
new limit_kbps now =
    let limit_bps = (limit_kbps * 1024) % 2 ^ 64 in
    record {
      limit_bps = limit_bps;
      state = record { tokens = limit_bps * billion; last_refill = now };
    }

pub refill : ℕ → ℕ → BucketState → ℕ
refill limit_bps now s =
    let tokens = s.tokens + (now - s.last_refill) * limit_bps in
    if ltb (limit_bps * billion) tokens then limit_bps * billion else tokens

-- One pass of the loop of `acquire(n)`, under the mutex: a delay, or none where the bytes may go.
pub acquire_round : ℕ → ℕ → ℕ → BucketState → Option ℕ × BucketState
unfolding refill
acquire_round limit_bps n now s =
    let tokens = refill limit_bps now s in
    if leb (n * billion) tokens
    then (none, record { tokens = tokens - n * billion; last_refill = now })
    else (
      some ((2 * (n * billion - tokens) + limit_bps) / (2 * limit_bps)),
      record { tokens = tokens; last_refill = now },
    )

-- The loop: `readings` are what the clock shows at each pass. The result holds the readings left
-- when the permission came, or none if it has not come by the last reading.
pub acquire_loop : ℕ → ℕ → List ℕ → BucketState → Option (List ℕ) × BucketState
acquire_loop limit_bps n [] s = (none, s)
acquire_loop limit_bps n (now ∷ readings) s =
    let (delay, s') = acquire_round limit_bps n now s in
    elim delay [ none ↦ (some readings, s') | some d ↦ acquire_loop limit_bps n readings s' ]

pub acquire : BandwidthLimiter → ℕ → List ℕ → Option (List ℕ) × BandwidthLimiter
acquire l n readings =
    let (left, s) = acquire_loop l.limit_bps n readings l.state in
    if l.limit_bps == 0 then (some readings, l) else (left, record l { state = s })
