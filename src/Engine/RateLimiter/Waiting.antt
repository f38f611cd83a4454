-- ===== src/Engine/RateLimiter/Waiting.antt =====
-- src/engine/rate_limiter.rs: who waits, and that the delay which a round returns is enough.
use syncgdrive.Base.{
  ℕ, ◌+◌, ◌-◌, ◌*◌, ◌/◌, ◌≤◌, ◌<◌, ◌≡◌, refl, true, none, some, List, [], ◌∷◌, All, arith, leb, max,
  inl, inr, Option-cases,
}
use syncgdrive.Engine.RateLimiter.{
  RateState, ApiRateLimiter, billion, refill, take_token, acquire_round, acquire_loop, acquire,
  handle_rate_limit,
}

acquire_loop-locked :
    (r lock_end : ℕ) (readings : List ℕ) (s : RateState)
    → s.locked_until ≡ some lock_end
    → All (λ now. now < lock_end) readings
    → acquire_loop r readings s ≡ (none, s)
unfolding acquire_loop acquire_round
acquire_loop-locked r lock_end [] s locked early = refl
acquire_loop-locked r lock_end (now ∷ readings) s locked (first, later) =
    ground (arith, acquire_loop-locked r lock_end readings s locked later)

-- While the lock holds, no pass of `acquire` lets a call through, and the state stays as it is.
pub acquire-locked :
    (l : ApiRateLimiter) (lock_end : ℕ) (readings : List ℕ)
    → 0 < l.max_rps
    → l.state.locked_until ≡ some lock_end
    → All (λ now. now < lock_end) readings
    → acquire l readings ≡ (none, l)
unfolding acquire
acquire-locked l lock_end readings pos locked early =
    ground (arith, acquire_loop-locked l.max_rps lock_end readings l.state locked early)

-- A rounded quotient, and one more, reach what is divided.
enough : (r n : ℕ) → 0 < r → n < ((2 * n + r) / (2 * r) + 1) * r
enough r n pos = grind arith

mul_le : (a b r : ℕ) → a ≤ b → a * r ≤ b * r
mul_le a b r h = grind arith

-- The bucket holds a token once the missing part of it has had the time to come in.
billion-le-refill :
    (r now now' delay : ℕ) (s : RateState)
    → 0 < r
    → now + delay < now'
    → billion < s.tokens + (delay + 1) * r + 1
    → s.last_refill ≡ now
    → leb billion (refill r now' s) ≡ true
unfolding refill
billion-le-refill r now now' delay s pos late filled e = rw e (
    ground
      (arith, mul_le (delay + 1) (now' - now) r (omega arith), mul_le 1 r billion (omega arith)))

take_token-after_delay :
    (r now now' delay : ℕ) (s : RateState)
    → 0 < r
    → (take_token r now s).0 ≡ some delay
    → now + delay < now'
    → (take_token r now' (take_token r now s).1).0 ≡ none
unfolding take_token
take_token-after_delay r now now' delay s pos asked late = ground (
  arith,
  enough r (billion - refill r now s) pos,
  billion-le-refill r now now' delay (record s { tokens = refill r now s; last_refill = now }) pos
      late,
)

take_token-unlocked :
    (r now : ℕ) (s : RateState) → (take_token r now s).1.locked_until ≡ s.locked_until
unfolding take_token
take_token-unlocked r now s = ground arith

-- A caller that has been told to wait, because of a lock or for want of a token, and that wakes up
-- later than the delay it was given, gets its permission at the next pass, if there is at least one
-- call per second and neither another caller nor a 429 has come in between.
pub acquire_round-after_delay :
    (max_rps now now' delay : ℕ) (s : RateState)
    → 0 < max_rps
    → (acquire_round max_rps now s).0 ≡ some delay
    → now + delay < now'
    → (acquire_round max_rps now' (acquire_round max_rps now s).1).0 ≡ none
unfolding acquire_round
acquire_round-after_delay r now now' delay s pos asked late =
    ground (arith, take_token-after_delay r now now' delay s pos, take_token-unlocked r now s)

-- A 429 never shortens a lock: after it the lock ends no earlier than before, and no earlier than
-- the server asks.
pub handle_rate_limit-extends :
    (secs now : ℕ) (s : RateState)
    → (t : ℕ) × ((handle_rate_limit secs now s).locked_until ≡ some t)
      × (now + secs * billion ≤ t)
      × ((t' : ℕ) → s.locked_until ≡ some t' → t' ≤ t)
unfolding handle_rate_limit
handle_rate_limit-extends secs now s = elim (Option-cases s.locked_until) [
  | inl e ↦ rw e (now + secs * billion, refl, omega arith, λ t' h. cc)
  | inr (u, e) ↦
      rw e (max u (now + secs * billion), ground arith, omega arith, λ t' h. ground arith)
]

-- The pass that finds the lock over lets its call through and takes no token for it.
pub acquire_round-free :
    (max_rps now lock_end : ℕ) (s : RateState)
    → s.locked_until ≡ some lock_end
    → lock_end ≤ now
    → (acquire_round max_rps now s ≡ (none, record s { locked_until = none }))
unfolding acquire_round
acquire_round-free r now lock_end s locked over = ground arith
