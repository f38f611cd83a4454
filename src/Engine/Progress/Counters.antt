-- ===== src/Engine/Progress/Counters.antt =====
-- src/engine/bandwidth.rs: no byte is lost by the counters, and what the estimate shows.
use native.Mathlib.Nat.{pow-suc}
use syncgdrive.Base.{
  ℕ, zero, suc, ◌+◌, ◌-◌, ◌*◌, ◌/◌, ◌%◌, ◌^◌, ◌≤◌, ◌<◌, ◌≡◌, ap, ◌∙◌, Text, codes, ◌||◌, none, some,
  List, [], ◌∷◌, ◌++◌, ◌⊎◌, inl, inr, Bool-cases, arith, ltb, leb, ◌==◌,
}
use syncgdrive.Engine.Progress.{
  ProgressTracker, u64_mod, set_current_file, record_bytes, calculate_eta_secs, show_onto, show,
  format_eta, snapshot,
}

-- One call of `record_bytes`: the bytes, and the clock.
abbrev pub Portion : Type 0
Portion = ℕ × ℕ

pub record_all : List Portion → ProgressTracker → ProgressTracker
record_all [] t = t
record_all ((n, now) ∷ ps) t = record_all ps (record_bytes n now t)

abbrev pub sum : List Portion → ℕ
sum [] = 0
sum ((n, now) ∷ ps) = n + sum ps

record_bytes-counters :
    (n now : ℕ) (t : ProgressTracker)
    → t.sent_bytes + n < u64_mod
    → t.state.current_bytes_sent ≤ t.sent_bytes
    → ((record_bytes n now t).sent_bytes ≡ t.sent_bytes + n)
      × ((record_bytes n now t).state.current_bytes_sent ≡ t.state.current_bytes_sent + n)
unfolding record_bytes
record_bytes-counters n now t h le = omega arith

record_all-counters :
    (ps : List Portion) (t : ProgressTracker)
    → t.sent_bytes + sum ps < u64_mod
    → t.state.current_bytes_sent ≤ t.sent_bytes
    → ((record_all ps t).sent_bytes ≡ t.sent_bytes + sum ps)
      × ((record_all ps t).state.current_bytes_sent ≡ t.state.current_bytes_sent + sum ps)
unfolding record_all
record_all-counters [] t h le = omega arith
record_all-counters ((n, now) ∷ ps) t h le =
    let e = record_bytes-counters n now t (omega arith) le in
    let rest =
      record_all-counters ps (record_bytes n now t) (omega (arith, e.0))
        (omega (arith, e.0, e.1)) in
    omega (arith, e.0, e.1, rest.0, rest.1)

-- After any portions, in any order of arrival, that a 64-bit counter can hold on top of what was
-- sent before, a file announced to a tracker has exactly their sum sent in the snapshot, whatever
-- was sent of the file before it, and the global counter has grown by their sum.
pub snapshot-record_all :
    (t : ProgressTracker) (dir name : Text) (size : ℕ) (ps : List Portion)
    → t.sent_bytes + sum ps < u64_mod
    → ((snapshot (record_all ps (set_current_file dir name size t))).current_bytes_sent ≡ sum ps)
      × ((snapshot (record_all ps (set_current_file dir name size t))).sent_bytes
          ≡ t.sent_bytes + sum ps)
unfolding snapshot set_current_file
snapshot-record_all t dir name size ps h =
    let c = record_all-counters ps (set_current_file dir name size t) (omega arith) (omega arith) in
    omega (arith, c.0, c.1)

-- The estimate is the time that what remains takes at the speed, rounded down; there is none
-- exactly when the speed is 0 or all is sent.
pub calculate_eta_secs_lem :
    (speed total sent : ℕ)
    → ((calculate_eta_secs speed total sent ≡ none) × ((speed ≡ 0) ⊎ (total ≤ sent)))
      ⊎ ((e : ℕ) × (calculate_eta_secs speed total sent ≡ some e)
          × (e * speed ≤ total - sent)
          × (total - sent < (e + 1) * speed)
          × (0 < speed)
          × (sent < total))
unfolding calculate_eta_secs
calculate_eta_secs_lem speed total sent = elim (Bool-cases (speed == 0 || leb total sent)) [
  | inl idle ↦ inl (rw idle, ground arith)
  | inr busy ↦
      inr ((total - sent) / speed, rw busy, grind arith, grind arith, ground arith, ground arith)
]

-- The number that a text of digits stands for, after `acc`.
pub value : ℕ → Text → ℕ
value acc [] = acc
value acc (c ∷ s) = value (acc * 10 + (c - b'0')) s

value-show_onto :
    (fuel n : ℕ) (rest : Text) → n < 10 ^ fuel → value 0 (show_onto fuel n rest) ≡ value n rest
unfolding value show_onto
value-show_onto zero n rest h = let e : 0 ≡ n = omega arith in ap (λ k. value k rest) e
value-show_onto (suc fuel) n rest h = elim (Bool-cases (ltb n 10)) [
  | inl small ↦
      let e : 0 * 10 + ((b'0' + n) - b'0') ≡ n = omega arith in rw small (ap (λ k. value k rest) e)
  | inr large ↦
      let e : n / 10 * 10 + ((b'0' + n % 10) - b'0') ≡ n = omega arith in
      rw large (
        value-show_onto fuel (n / 10) ((b'0' + n % 10) ∷ rest) (omega (arith, pow-suc 10 fuel))
        ∙ ap (λ k. value k rest) e)
]

pub value-show : (n : ℕ) → n < 10 ^ 20 → value 0 (show n) ≡ n
unfolding show value
value-show n h = value-show_onto 20 n [] h

-- The units of an estimate: how many seconds one has, its text, and the estimates it is for.
pub data IsUnit (secs : ℕ) : ℕ → Text → Type 0 where
  seconds : secs < 60 → IsUnit secs 1 (codes " s")
  minutes : 60 ≤ secs → secs < 3600 → IsUnit secs 60 (codes " min")
  hours : 3600 ≤ secs → IsUnit secs 3600 (codes " h")

-- The text of an estimate is a number `v` in digits between `~` and the text of a unit: seconds
-- below a minute, minutes below an hour, hours from there on. The estimate lies between `v` and
-- `v + 1` of that unit.
pub format_eta-reading :
    (secs : ℕ)
    → secs < u64_mod
    → (v unit : ℕ) × (suffix : Text) × (format_eta (some secs) ≡ codes "~" ++ show v ++ suffix)
      × IsUnit secs unit suffix
      × (value 0 (show v) ≡ v)
      × (v * unit ≤ secs)
      × (secs < (v + 1) * unit)
unfolding format_eta
format_eta-reading secs h = elim (Bool-cases (ltb secs 60)) [
  | inl short ↦ (
    secs,
    1,
    codes " s",
    rw short,
    seconds (ground arith),
    value-show secs (omega arith),
    omega arith,
    omega arith,
  )
  | inr long ↦ elim (Bool-cases (ltb secs 3600)) [
    | inl medium ↦ (
      secs / 60,
      60,
      codes " min",
      rw (long, medium),
      minutes (ground arith) (ground arith),
      value-show (secs / 60) (omega arith),
      omega arith,
      omega arith,
    )
    | inr large ↦ (
      secs / 3600,
      3600,
      codes " h",
      rw (long, large),
      hours (ground arith),
      value-show (secs / 3600) (omega arith),
      omega arith,
      omega arith,
    )
  ]
]
