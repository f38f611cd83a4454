-- ===== src/Engine/Watcher/Examples.antt =====
-- A watcher with room for one event.
use syncgdrive.Base.{refl, true, false, List, [], ◌∷◌, ◌++◌, some, codes, ◌≡◌}
use syncgdrive.Paths.{FilePath}
use syncgdrive.Engine.Watcher.{Watcher, create, on_event, try_send, receive, translate}
use syncgdrive.Engine.Watcher.Losses.{
  Happening, comes, is_taken, happen_all, all_translated, all_effects, all_native_effects,
  happen_all_complete,
}

abbrev path : FilePath
path = record { absolute = true; parts = codes "home" ∷ codes "b" ∷ [] }

abbrev quiet : Watcher
quiet = record { capacity = 1; queued = []; received = []; overflow = false }

abbrev happenings : List Happening
happenings =
    comes (some (record { kind = create; paths = path ∷ [] }))
    ∷ is_taken
    ∷ comes (some (record { kind = create; paths = path ∷ [] }))
    ∷ []

happen_all_complete_example :
    (quiet.overflow ≡ false)
    × ((happen_all happenings quiet).received ++ (happen_all happenings quiet).queued
        ≡ [] ++ [] ++ all_translated happenings)
    × (all_effects ((happen_all happenings quiet).received ++ (happen_all happenings quiet).queued)
        ≡ all_effects ([] ++ []) ++ all_native_effects happenings)
unfolding on_event try_send receive translate
happen_all_complete_example = happen_all_complete happenings quiet refl
