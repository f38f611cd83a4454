-- ===== src/Engine/Progress/Window.antt =====
-- src/engine/bandwidth.rs: the sliding window keeps the samples of the last five seconds, in order.
use syncgdrive.Base.{
  ℕ, ◌+◌, ◌-◌, ◌*◌, ◌≤◌, ◌≡◌, List, [], ◌∷◌, ◌++◌, All, Bool-cases, inl, inr, false, arith, ltb,
}
use syncgdrive.Engine.RateLimiter.{billion}
use syncgdrive.Engine.Progress.{Sample, ProgressTracker, trim, record_bytes, fetch_add}

abbrev pub Ascending : ℕ → List Sample → ℕ → Type 0
Ascending lo [] hi = lo ≤ hi
Ascending lo (x ∷ xs) hi = (lo ≤ x.at) × Ascending x.at xs hi

abbrev pub AreFresh : ℕ → List Sample → Type 0
AreFresh now xs = All (λ x. now ≤ x.at + 5 * billion) xs

-- At the instant `now` of the last sample.
pub record IsWindow (lo now : ℕ) (t : ProgressTracker) : Type 0 where
  pub ascending : Ascending lo t.state.speed_samples now
  pub fresh : AreFresh now t.state.speed_samples

Ascending-le : (lo hi : ℕ) (xs : List Sample) → Ascending lo xs hi → lo ≤ hi
Ascending-le lo hi [] h = h
Ascending-le lo hi (x ∷ xs) (a, h) = omega (arith, Ascending-le x.at hi xs h)

Ascending-append :
    (lo hi now : ℕ) (xs : List Sample) (x : Sample)
    → Ascending lo xs hi
    → hi ≤ x.at
    → x.at ≤ now
    → Ascending lo (xs ++ x ∷ []) now
Ascending-append lo hi now [] x h le le' = omega arith
Ascending-append lo hi now (y ∷ ys) x (a, h) le le' =
    (a, Ascending-append y.at hi now ys x h le le')

Ascending-weaken :
    (lo lo' hi : ℕ) (xs : List Sample) → lo ≤ lo' → Ascending lo' xs hi → Ascending lo xs hi
Ascending-weaken lo lo' hi [] le h = omega arith
Ascending-weaken lo lo' hi (x ∷ xs) le (a, h) = (omega arith, h)

trim-Ascending :
    (lo hi now : ℕ) (xs : List Sample) → Ascending lo xs hi → Ascending lo (trim now xs) hi
unfolding trim
trim-Ascending lo hi now [] h = h
trim-Ascending lo hi now (x ∷ xs) (a, h) = elim (Bool-cases (ltb (5 * billion) (now - x.at))) [
  | inl old ↦ rw old (Ascending-weaken lo x.at hi _ a (trim-Ascending x.at hi now xs h))
  | inr young ↦ rw young (a, h)
]

Ascending-AreFresh :
    (lo hi now : ℕ) (xs : List Sample)
    → Ascending lo xs hi
    → now ≤ lo + 5 * billion
    → AreFresh now xs
Ascending-AreFresh lo hi now [] h le = tt
Ascending-AreFresh lo hi now (x ∷ xs) (a, h) le =
    (omega arith, Ascending-AreFresh x.at hi now xs h (omega arith))

young_enough : (now at : ℕ) → ltb (5 * billion) (now - at) ≡ false → now ≤ at + 5 * billion
young_enough now at h = ground arith

trim-AreFresh : (lo hi now : ℕ) (xs : List Sample) → Ascending lo xs hi → AreFresh now (trim now xs)
unfolding trim
trim-AreFresh lo hi now [] h = tt
trim-AreFresh lo hi now (x ∷ xs) (a, h) = elim (Bool-cases (ltb (5 * billion) (now - x.at))) [
  | inl old ↦ rw old (trim-AreFresh x.at hi now xs h)
  | inr young ↦ rw young (
    young_enough now x.at young,
    Ascending-AreFresh x.at hi now xs h (young_enough now x.at young),
  )
]

-- With a clock that does not run backwards, each recorded portion leaves the samples in order and
-- none of them older than five seconds.
pub record_bytes-IsWindow :
    (n lo before now : ℕ) (t : ProgressTracker)
    → before ≤ now
    → IsWindow lo before t
    → IsWindow lo now (record_bytes n now t)
unfolding record_bytes
record_bytes-IsWindow n lo before now t le w =
    let grown =
      Ascending-append lo before now t.state.speed_samples
        (record { at = now; total = fetch_add t.sent_bytes n }) w.ascending le (omega arith) in
    record {
      ascending = trim-Ascending lo now now _ grown;
      fresh = trim-AreFresh lo now now _ grown;
    }
