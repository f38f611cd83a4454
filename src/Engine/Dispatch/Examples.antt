-- ===== src/Engine/Dispatch/Examples.antt =====
-- A session without network at concrete events.
use syncgdrive.Base.{keep, All, ◌++◌, ℕ, ◌≡◌, Text, codes, true, false, some, List, [], ◌∷◌, arith}
use syncgdrive.Paths.{FilePath}
use syncgdrive.Db.{empty}
use syncgdrive.Engine.Progress.{new}
use syncgdrive.Engine.Dispatch.{Dispatcher, Settings, is_ready, on_tick}
use syncgdrive.Engine.Dispatch.Debounce.{syncs, on_tick-sends}
use syncgdrive.Engine.Dispatch.Survival.{Happening, gone, moved, settled}

abbrev below : Text → FilePath
below name = record { absolute = true; parts = codes "home" ∷ name ∷ [] }

abbrev a_path : FilePath
a_path = below (codes "a")

abbrev b_path : FilePath
b_path = below (codes "b")

abbrev cfg : Settings
cfg = record {
  debounce_ms = 500;
  local_root = record { absolute = true; parts = codes "home" ∷ [] };
  file_len = λ p. 3;
}

abbrev start : Dispatcher
start = record {
  pending = [];
  channel = record { sent = []; room = 8; is_full = false };
  tracker = new;
  db = record empty { offline_queue = some (record { rows = []; sequence = 5 }) };
}

abbrev session : List (ℕ × Happening)
session = (1, settled a_path) ∷ (2, moved a_path b_path) ∷ (3, gone b_path) ∷ []

abbrev waiting : Dispatcher
waiting = record start {
  pending = record { path = a_path; since = 0 } ∷ record { path = b_path; since = 900000000 } ∷ [];
}

on_tick-sends_example :
    ((on_tick cfg false 1000000000 waiting).1.channel.sent
      ≡ waiting.channel.sent ++ syncs cfg (keep (is_ready cfg 1000000000) waiting.pending))
    × All (λ w. is_ready cfg 1000000000 w ≡ false) (on_tick cfg false 1000000000 waiting).1.pending
unfolding keep is_ready
on_tick-sends_example = on_tick-sends cfg 1000000000 waiting (omega arith)
