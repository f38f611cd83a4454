-- ===== src/Engine/Progress/Examples.antt =====
-- The counters and the estimate at concrete values.
use syncgdrive.Base.{
  ℕ, ◌+◌, ◌-◌, ◌*◌, ◌≤◌, ◌<◌, ◌≡◌, refl, Text, codes, none, some, List, [], ◌∷◌, ◌++◌, ◌⊎◌, arith,
}
use syncgdrive.Engine.Progress.{
  ProgressTracker, new, set_current_file, record_bytes, calculate_eta_secs, show, format_eta,
  snapshot,
}
use syncgdrive.Engine.Progress.Counters.{
  IsUnit, Portion, record_all, sum, value, snapshot-record_all, calculate_eta_secs_lem,
  format_eta-reading,
}
use syncgdrive.Engine.Progress.Window.{IsWindow, record_bytes-IsWindow}

abbrev portions : List Portion
portions = (5, 1) ∷ (7, 4) ∷ []

-- A file was under way before, with three bytes sent.
abbrev before : ProgressTracker
before = record new {
  sent_bytes = 3;
  state = record (new.state) { current_name = codes "e"; current_bytes_sent = 3 };
}

snapshot-record_all_example :
    ((snapshot (record_all portions (set_current_file [] (codes "f") 12 before))).current_bytes_sent
      ≡ sum portions)
    × ((snapshot (record_all portions (set_current_file [] (codes "f") 12 before))).sent_bytes
        ≡ 3 + sum portions)
snapshot-record_all_example = snapshot-record_all before [] (codes "f") 12 portions (omega arith)

abbrev pace : ℕ
pace = 3

calculate_eta_secs_example :
    ((calculate_eta_secs pace 10 2 ≡ none) × ((pace ≡ 0) ⊎ (10 ≤ 2)))
    ⊎ ((e : ℕ) × (calculate_eta_secs pace 10 2 ≡ some e)
        × (e * pace ≤ 10 - 2)
        × (10 - 2 < (e + 1) * pace)
        × (0 < pace)
        × (2 < 10))
calculate_eta_secs_example = calculate_eta_secs_lem pace 10 2

format_eta_135 : format_eta (some 135) ≡ codes "~2 min"
unfolding format_eta show
format_eta_135 = refl

format_eta-reading_example :
    (v unit : ℕ) × (suffix : Text) × (format_eta (some 135) ≡ codes "~" ++ show v ++ suffix)
    × IsUnit 135 unit suffix
    × (value 0 (show v) ≡ v)
    × (v * unit ≤ 135)
    × (135 < (v + 1) * unit)
format_eta-reading_example = format_eta-reading 135 (omega arith)

new-IsWindow : IsWindow 0 3 new
unfolding new
new-IsWindow = record { ascending = omega arith; fresh = tt }

record_bytes-IsWindow_example : IsWindow 0 9 (record_bytes 5 9 new)
record_bytes-IsWindow_example = record_bytes-IsWindow 5 0 3 9 new (omega arith) new-IsWindow
