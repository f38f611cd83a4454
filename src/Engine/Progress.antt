-- ===== src/Engine/Progress.antt =====
-- src/engine/bandwidth.rs: `ProgressTracker`, the counters and the sliding window of samples. An
-- `Instant` is a number of nanoseconds; the atomic counters wrap at 2 ^ 64.
pub mod Window
pub mod Counters
mod Examples
use syncgdrive.Base.{
  ℕ, zero, suc, ◌+◌, ◌-◌, ◌*◌, ◌/◌, ◌%◌, ◌^◌, Text, codes, Bool, true, false, ◌||◌, Option, none,
  some, List, [], ◌∷◌, ◌++◌, ltb, leb, ◌==◌, if◌then◌else◌, length,
}
use syncgdrive.Engine.RateLimiter.{billion}

pub record Sample : Type 0 where
  pub at : ℕ
  pub total : ℕ

pub record TrackerState : Type 0 where
  pub current_dir : Text
  pub current_name : Text
  pub current_file_size : ℕ
  pub current_bytes_sent : ℕ
  pub speed_samples : List Sample

pub record ProgressTracker : Type 0 where
  pub total_files : ℕ
  pub done_files : ℕ
  pub total_bytes : ℕ
  pub sent_bytes : ℕ
  pub state : TrackerState

pub record ProgressSnapshot : Type 0 where
  pub total_files : ℕ
  pub done_files : ℕ
  pub total_bytes : ℕ
  pub sent_bytes : ℕ
  pub current_file_size : ℕ
  pub current_bytes_sent : ℕ
  pub current_dir : Text
  pub current_name : Text
  pub speed_bps : ℕ
  pub eta_string : Text

abbrev pub u64_mod : ℕ
u64_mod = 2 ^ 64

unfoldable pub new : ProgressTracker
new = record {
  total_files = 0;
  done_files = 0;
  total_bytes = 0;
  sent_bytes = 0;
  state = record {
    current_dir = [];
    current_name = [];
    current_file_size = 0;
    current_bytes_sent = 0;
    speed_samples = [];
  };
}

-- `fetch_add` on a 64-bit counter.
unfoldable pub fetch_add : ℕ → ℕ → ℕ
fetch_add counter n = (counter + n) % u64_mod

unfoldable pub set_current_file : Text → Text → ℕ → ProgressTracker → ProgressTracker
set_current_file dir name size t = record t {
  state = record (t.state) {
    current_dir = dir;
    current_name = name;
    current_file_size = size;
    current_bytes_sent = 0;
  };
}

-- The `while let` that drops the samples older than five seconds from the front.
unfoldable pub trim : ℕ → List Sample → List Sample
trim now [] = []
trim now (x ∷ xs) =
    let rest = trim now xs in if ltb (5 * billion) (now - x.at) then rest else x ∷ xs

unfoldable pub record_bytes : ℕ → ℕ → ProgressTracker → ProgressTracker
unfolding fetch_add trim
record_bytes n now t =
    let current_total = fetch_add t.sent_bytes n in
    record t {
      sent_bytes = current_total;
      state = record (t.state) {
        current_bytes_sent = fetch_add t.state.current_bytes_sent n;
        speed_samples =
            trim now (t.state.speed_samples ++ record { at = now; total = current_total } ∷ []);
      };
    }

unfoldable pub last_sample : Sample → List Sample → Sample
last_sample x [] = x
last_sample x (y ∷ ys) = last_sample y ys

unfoldable pub calculate_speed : List Sample → ℕ
unfolding last_sample
calculate_speed [] = 0
calculate_speed (x ∷ []) = 0
calculate_speed (x ∷ y ∷ ys) =
    let z = last_sample y ys in
    let elapsed = z.at - x.at in
    if ltb 0 elapsed then ((z.total - x.total) * billion) / elapsed else 0

unfoldable pub calculate_eta_secs : ℕ → ℕ → ℕ → Option ℕ
calculate_eta_secs speed total sent =
    if speed == 0 || leb total sent then none else some ((total - sent) / speed)

-- A number in decimal digits: the digits of `n`, in front of `rest`. The fuel bounds their number.
unfoldable pub show_onto : ℕ → ℕ → Text → Text
show_onto zero n rest = rest
show_onto (suc fuel) n rest =
    let more = show_onto fuel (n / 10) ((b'0' + n % 10) ∷ rest) in
    if ltb n 10 then (b'0' + n) ∷ rest else more

-- `format!("{}", n)` for a 64-bit number: twenty digits are enough.
unfoldable pub show : ℕ → Text
unfolding show_onto
show n = show_onto 20 n []

unfoldable pub format_eta : Option ℕ → Text
unfolding show
format_eta none = codes "⏳ En attente…"
format_eta (some secs) =
    if ltb secs 60
    then codes "~" ++ show secs ++ codes " s"
    else if ltb secs 3600
    then codes "~" ++ show (secs / 60) ++ codes " min"
    else codes "~" ++ show (secs / 3600) ++ codes " h"

unfoldable pub speed_bps : ProgressTracker → ℕ
unfolding calculate_speed
speed_bps t = calculate_speed t.state.speed_samples

unfoldable pub eta_secs : ProgressTracker → Option ℕ
unfolding speed_bps calculate_eta_secs
eta_secs t = calculate_eta_secs (speed_bps t) t.total_bytes t.sent_bytes

unfoldable pub human_eta : ProgressTracker → Text
unfolding format_eta eta_secs
human_eta t = format_eta (eta_secs t)

unfoldable pub snapshot : ProgressTracker → ProgressSnapshot
unfolding calculate_speed calculate_eta_secs format_eta
snapshot t =
    let speed = calculate_speed t.state.speed_samples in
    let eta = calculate_eta_secs speed t.total_bytes t.sent_bytes in
    record {
      total_files = t.total_files;
      done_files = t.done_files;
      total_bytes = t.total_bytes;
      sent_bytes = t.sent_bytes;
      current_file_size = t.state.current_file_size;
      current_bytes_sent = t.state.current_bytes_sent;
      current_dir = t.state.current_dir;
      current_name = t.state.current_name;
      speed_bps = speed;
      eta_string = format_eta eta;
    }
