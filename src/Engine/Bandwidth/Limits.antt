-- ===== src/Engine/Bandwidth/Limits.antt =====
-- src/engine/bandwidth.rs: the bytes that a limiter lets through, and when it lets them through.
use syncgdrive.Base.{
  ℕ, ◌+◌, ◌-◌, ◌*◌, ◌/◌, ◌≤◌, ◌<◌, ◌≡◌, refl, ap, true, false, ◌==◌, if◌then◌else◌, Option, none,
  some, List, [], ◌∷◌, arith, leb,
}
use syncgdrive.Engine.RateLimiter.{billion}
use syncgdrive.Engine.Bandwidth.{
  BucketState, BandwidthLimiter, refill, acquire_round, acquire_loop, acquire,
}

-- A pass of some worker: the bytes that it asks for, and the instant.
pub record Request : Type 0 where
  pub bytes : ℕ
  pub now : ℕ

abbrev pub passed : Option ℕ → ℕ → ℕ
passed none n = n
passed (some delay) n = 0

-- The passes of all workers in the order in which they take the mutex: the bytes let through. For a
-- limit of 0 they go at once, as `acquire` returns before its loop.
pub run : ℕ → List Request → BucketState → ℕ × BucketState
run limit_bps [] s = (0, s)
run limit_bps (q ∷ qs) s =
    let (delay, s') = acquire_round limit_bps q.bytes q.now s in
    let (m, s'') = run limit_bps qs s' in
    let (free, s₀) = run limit_bps qs s in
    if limit_bps == 0 then (q.bytes + free, s₀) else (passed delay q.bytes + m, s'')

abbrev pub InOrder : ℕ → List Request → ℕ → Type 0
InOrder t [] end = t ≤ end
InOrder t (q ∷ qs) end = (t ≤ q.now) × InOrder q.now qs end

refill-le :
    (l now : ℕ) (s : BucketState)
    → s.last_refill ≤ now
    → refill l now s + l * s.last_refill ≤ s.tokens + l * now
unfolding refill
refill-le l now s h = grind arith

acquire_round-budget :
    (l n now : ℕ) (s : BucketState)
    → s.last_refill ≤ now
    → (passed (acquire_round l n now s).0 n * billion
          + (acquire_round l n now s).1.tokens
          + l * s.last_refill
        ≤ s.tokens + l * now)
      × ((acquire_round l n now s).1.last_refill ≡ now)
unfolding acquire_round
acquire_round-budget l n now s h = ground (arith, refill-le l now s h)

mul_mono : (r a b : ℕ) → a ≤ b → r * a ≤ r * b
mul_mono r a b h = grind arith

run-budget :
    (l : ℕ) (qs : List Request) (s : BucketState) (t end : ℕ)
    → 0 < l
    → s.last_refill ≤ t
    → InOrder t qs end
    → (run l qs s).0 * billion + (run l qs s).1.tokens + l * s.last_refill ≤ s.tokens + l * end
unfolding run
run-budget l [] s t end pos h o = omega (arith, mul_mono l s.last_refill end (omega arith))
run-budget l (q ∷ qs) s t end pos h (first, later) =
    let one = acquire_round-budget l q.bytes q.now s (omega arith) in
    let rest =
      run-budget l qs (acquire_round l q.bytes q.now s).1 q.now end pos (omega arith) later in
    let limited : (l == 0) ≡ false = ground arith in
    rw limited (omega (arith, one.0, ap (λ (k : ℕ). l * k) one.1, rest))

ordered : (qs : List Request) (t end : ℕ) → InOrder t qs end → t ≤ end
ordered [] t end o = o
ordered (q ∷ qs) t end (first, later) = omega (arith, ordered qs q.now end later)

mul_sub : (r a b : ℕ) → a ≤ b → r * (b - a) + r * a ≡ r * b
mul_sub r a b h = grind arith

-- Under a limit above 0, whatever the interleaving of the workers, the bytes let through by the instant `end` are paid
-- for by the tokens that were there and by `limit_bps` for each second since the last refill.
pub run-rate :
    (l : ℕ) (qs : List Request) (s : BucketState) (end : ℕ)
    → 0 < l
    → InOrder s.last_refill qs end
    → (run l qs s).0 * billion ≤ s.tokens + l * (end - s.last_refill)
run-rate l qs s end pos o = omega (
  arith,
  run-budget l qs s s.last_refill end pos (omega arith) o,
  mul_sub l s.last_refill end (ordered qs s.last_refill end o),
)

acquire_loop-starves :
    (l n : ℕ) (readings : List ℕ) (s : BucketState) → l < n → (acquire_loop l n readings s).0 ≡ none
unfolding acquire_loop acquire_round refill
acquire_loop-starves l n [] s big = refl
acquire_loop-starves l n (now ∷ readings) s big =
    ground (arith, acquire_loop-starves l n readings (acquire_round l n now s).1 big)

-- A request for more bytes than the bucket holds is never granted, however long it waits.
pub acquire-starves :
    (l : BandwidthLimiter) (n : ℕ) (readings : List ℕ)
    → 0 < l.limit_bps
    → l.limit_bps < n
    → (acquire l n readings).0 ≡ none
unfolding acquire
acquire-starves l n readings pos big =
    ground (arith, acquire_loop-starves l.limit_bps n readings l.state big)

-- A rounded quotient, and one more, reach what is divided.
enough : (r n : ℕ) → 0 < r → n < ((2 * n + r) / (2 * r) + 1) * r
enough r n pos = grind arith

mul_le : (a b r : ℕ) → a ≤ b → a * r ≤ b * r
mul_le a b r h = grind arith

bytes-le-refill :
    (l n now now' delay : ℕ) (s : BucketState)
    → n ≤ l
    → now + delay < now'
    → n * billion < s.tokens + (delay + 1) * l + 1
    → s.last_refill ≡ now
    → leb (n * billion) (refill l now' s) ≡ true
unfolding refill
bytes-le-refill l n now now' delay s fits late filled e =
    rw e (ground (arith, mul_le (delay + 1) (now' - now) l (omega arith), mul_le n l billion fits))

-- A request that fits the bucket is granted at the pass after the delay, if nobody else takes
-- tokens in between.
pub acquire-after_delay :
    (l n now now' delay : ℕ) (s : BucketState)
    → 0 < l
    → n ≤ l
    → (acquire_round l n now s).0 ≡ some delay
    → now + delay < now'
    → (acquire_round l n now' (acquire_round l n now s).1).0 ≡ none
unfolding acquire_round
acquire-after_delay l n now now' delay s pos fits asked late = ground (
  arith,
  enough l (n * billion - refill l now s) pos,
  bytes-le-refill l n now now' delay (record { tokens = refill l now s; last_refill = now }) fits
      late,
)
