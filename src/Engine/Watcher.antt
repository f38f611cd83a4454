-- ===== src/Engine/Watcher.antt =====
-- src/engine/watcher.rs: what the events of the native watcher become, and the flag of the events
-- that were lost. The kinds are those that the source tells apart.
pub mod Losses
mod Examples
use syncgdrive.Base.{ℕ, Bool, true, false, ltb, length, Option, none, some, List, [], ◌∷◌, ◌++◌}
use syncgdrive.Paths.{FilePath}
use syncgdrive.Engine.Dispatch.{WatchEvent, modified, deleted, renamed}

pub data EventKind : Type 0 where
  close_write : EventKind
  create : EventKind
  remove : EventKind
  rename_both : EventKind
  rename_from : EventKind
  rename_to : EventKind
  modify_data : EventKind
  other_kind : EventKind

pub record Event : Type 0 where
  pub kind : EventKind
  pub paths : List FilePath

-- `event.paths.into_iter().next().map(f)`
abbrev pub first_path : (FilePath → WatchEvent) → List FilePath → Option WatchEvent
first_path f [] = none
first_path f (p ∷ ps) = some (f p)

abbrev pub two_paths : List FilePath → Option WatchEvent
two_paths [] = none
two_paths (p ∷ []) = none
two_paths (p ∷ q ∷ ps) = some (renamed p q)

-- The `match` on the kind.
unfoldable pub translate : EventKind → List FilePath → Option WatchEvent
translate close_write paths = first_path modified paths
translate create paths = first_path modified paths
translate remove paths = first_path deleted paths
translate rename_both paths = two_paths paths
translate rename_from paths = first_path deleted paths
translate rename_to paths = first_path modified paths
translate modify_data paths = first_path modified paths
translate other_kind paths = none

-- The channel of the watcher, with what waits in it and what has been received, and the flag.
pub record Watcher : Type 0 where
  pub capacity : ℕ
  pub queued : List WatchEvent
  pub received : List WatchEvent
  pub overflow : Bool

-- `tx.try_send(ev)`, and the flag where it fails.
unfoldable pub try_send : WatchEvent → Watcher → Watcher
try_send ev w = elim (ltb (length w.queued) w.capacity) [
  | true ↦ record w { queued = w.queued ++ ev ∷ [] }
  | false ↦ record w { overflow = true }
]

-- The callback; none is an error of the native watcher.
unfoldable pub on_event : Option Event → Watcher → Watcher
on_event none w = w
on_event (some event) w = elim (translate event.kind event.paths) [
  | none ↦ w
  | some ev ↦ try_send ev w
]

-- `watch_rx.recv()`
unfoldable pub receive : Watcher → Watcher
receive w = elim w.queued [
  | [] ↦ w
  | ev ∷ evs ↦ record w { queued = evs; received = w.received ++ ev ∷ [] }
]

unfoldable pub take_overflow : Watcher → Bool × Watcher
take_overflow w = (w.overflow, record w { overflow = false })
