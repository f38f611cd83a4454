-- ===== src/Engine/RateLimiter/Quota.antt =====
-- src/engine/rate_limiter.rs: how many calls the limiter lets through, for any interleaving of the
-- workers. The mutex makes each pass of `acquire` and each 429 one atomic event.
use syncgdrive.Base.{
  ℕ, suc, ◌+◌, ◌-◌, ◌*◌, ◌≤◌, ◌<◌, ◌==◌, if◌then◌else◌, ◌≡◌, Option, none, some, List, [], ◌∷◌,
  arith,
}
use syncgdrive.Engine.RateLimiter.{
  RateState, billion, new, refill, take_token, acquire_round, handle_rate_limit,
}

pub data Event : Type 0 where
  round : ℕ → Event
  too_many : ℕ → ℕ → Event

-- When the event happens.
abbrev pub instant : Event → ℕ
instant (round now) = now
instant (too_many secs now) = now

abbrev pub granted : Option ℕ → ℕ
granted none = 1
granted (some delay) = 0

-- The state after an event, and the number of calls that it lets through: for `max_rps` 0 each call
-- goes at once, as `acquire` returns before its loop.
pub step : ℕ → Event → RateState → ℕ × RateState
step max_rps (round now) s =
    let (delay, s') = acquire_round max_rps now s in
    if max_rps == 0 then (1, s) else (granted delay, s')
step max_rps (too_many secs now) s = (0, handle_rate_limit secs now s)

pub run : ℕ → List Event → RateState → ℕ × RateState
run max_rps [] s = (0, s)
run max_rps (e ∷ es) s =
    let (n, s') = step max_rps e s in let (m, s'') = run max_rps es s' in (n + m, s'')

-- The events happen in order, from the instant `t` to the instant `end`.
abbrev pub InOrder : ℕ → List Event → ℕ → Type 0
InOrder t [] end = t ≤ end
InOrder t (e ∷ es) end = (t ≤ instant e) × InOrder (instant e) es end

abbrev pub punishments : List Event → ℕ
punishments [] = 0
punishments (round now ∷ es) = punishments es
punishments (too_many secs now ∷ es) = suc (punishments es)

abbrev pub lock_credit : Option ℕ → ℕ
lock_credit none = 0
lock_credit (some t) = billion

refill-le :
    (max_rps now : ℕ) (s : RateState)
    → s.last_refill ≤ now
    → refill max_rps now s + max_rps * s.last_refill ≤ s.tokens + max_rps * now
unfolding refill
refill-le r now s h = grind arith

take_token-budget :
    (r now : ℕ) (s : RateState)
    → s.last_refill ≤ now
    → (granted (take_token r now s).0 * billion + (take_token r now s).1.tokens + r * s.last_refill
        ≤ s.tokens + r * (take_token r now s).1.last_refill)
      × ((take_token r now s).1.last_refill ≡ now)
      × ((take_token r now s).1.locked_until ≡ s.locked_until)
unfolding take_token
take_token-budget r now s h = ground (arith, refill-le r now s h)

-- What one event may add: its grants, the tokens and the lock that it leaves are paid for.
record Paid (r : ℕ) (e : Event) (s : RateState) : Type 0 where
  spent :
      (step r e s).0 * billion
        + (step r e s).1.tokens
        + lock_credit (step r e s).1.locked_until
        + r * s.last_refill
      ≤ s.tokens
        + lock_credit s.locked_until
        + punishments (e ∷ []) * billion
        + r * (step r e s).1.last_refill
  fresh : (step r e s).1.last_refill ≤ instant e

step-Paid : (r : ℕ) (e : Event) (s : RateState) → 0 < r → s.last_refill ≤ instant e → Paid r e s
unfolding step acquire_round handle_rate_limit
step-Paid r (round now) s pos h = ground (arith, take_token-budget r now s h)
step-Paid r (too_many secs now) s pos h = ground arith

punishments-cons :
    (e : Event) (es : List Event) → punishments (e ∷ es) ≡ punishments (e ∷ []) + punishments es
punishments-cons (round now) es = omega arith
punishments-cons (too_many secs now) es = omega arith

run-budget :
    (r : ℕ) (es : List Event) (s : RateState) (t end : ℕ)
    → 0 < r
    → s.last_refill ≤ t
    → InOrder t es end
    → ((run r es s).0 * billion
          + (run r es s).1.tokens
          + lock_credit (run r es s).1.locked_until
          + r * s.last_refill
        ≤ s.tokens
          + lock_credit s.locked_until
          + punishments es * billion
          + r * (run r es s).1.last_refill)
      × ((run r es s).1.last_refill ≤ end)
unfolding run
run-budget r [] s t end pos h o = ground arith
run-budget r (e ∷ es) s t end pos h (first, later) =
    let paid = step-Paid r e s pos (omega arith) in
    let rest = run-budget r es (step r e s).1 (instant e) end pos paid.fresh later in
    (omega (arith, punishments-cons e es, paid.spent, rest.0), rest.1)

ordered : (es : List Event) (t end : ℕ) → InOrder t es end → t ≤ end
ordered [] t end o = o
ordered (e ∷ es) t end (first, later) = omega (arith, ordered es (instant e) end later)

mul_mono : (r a b : ℕ) → a ≤ b → r * a ≤ r * b
mul_mono r a b h = grind arith

mul_sub : (r a b : ℕ) → a ≤ b → r * (b - a) + r * a ≡ r * b
mul_sub r a b h = grind arith

-- Whatever the interleaving, between its creation at `t` and `end` a limiter of at least one call
-- per second lets through at most
-- `max_rps` calls at once, `max_rps` more for each second, and one more for each 429 received.
pub run-quota :
    (max_rps t end : ℕ) (es : List Event)
    → 0 < max_rps
    → InOrder t es end
    → (run max_rps es (new max_rps t).state).0 * billion
      ≤ (max_rps + punishments es) * billion + max_rps * (end - t)
unfolding new
run-quota r t end es pos o =
    let b = run-budget r es (new r t).state t end pos (omega arith) o in
    let m = mul_mono r (run r es (new r t).state).1.last_refill end b.1 in
    let u = mul_sub r t end (ordered es t end o) in omega (arith, b.0, m, u)
