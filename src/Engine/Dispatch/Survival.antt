-- ===== src/Engine/Dispatch/Survival.antt =====
-- src/engine/mod.rs and src/engine/offline.rs: what happens offline reaches the workers later as
-- what they would have received online.
use syncgdrive.Base.{ℕ, ◌+◌, ◌≡◌, Bool, some, List, [], ◌∷◌, ◌++◌, All}
use syncgdrive.Paths.{FilePath, strip_prefix}
use syncgdrive.Paths.RoundTrip.{AreNames}
use syncgdrive.Db.{OfflineTask, QueueTable}
use syncgdrive.Db.Queue.{IsQueue}
use syncgdrive.Engine.Tasks.{Task, sync_file, delete, rename}
use syncgdrive.Engine.Offline.{task_of}
use syncgdrive.Engine.Offline.Delivery.{tasks_of, unknown}
use syncgdrive.Engine.Dispatch.{deleted, renamed, Dispatcher, Settings, release, on_event}

-- What leads to a task: a path is gone, has moved, or has settled after its last change.
pub data Happening : Type 0 where
  gone : FilePath → Happening
  moved : FilePath → FilePath → Happening
  settled : FilePath → Happening

pub task : Happening → Task
task (gone p) = delete p
task (moved from to) = rename from to
task (settled p) = sync_file p

-- A path below the root, with names for its components.
abbrev pub IsInside : FilePath → FilePath → Type 0
IsInside root p = (rel : FilePath) × (strip_prefix root p ≡ some rel) × AreNames rel.parts

abbrev pub HappensInside : FilePath → Happening → Type 0
HappensInside root (gone p) = IsInside root p
HappensInside root (moved from to) = IsInside root from × IsInside root to
HappensInside root (settled p) = IsInside root p

module _ (cfg : Settings) where
  pub happen : Bool → ℕ → Happening → Dispatcher → Bool × Dispatcher
  happen offline now (gone p) s = on_event cfg (deleted p) offline now s
  happen offline now (moved from to) s = on_event cfg (renamed from to) offline now s
  happen offline now (settled p) s = release cfg offline now p s

  -- Happenings with their instants.
  pub happen_all : Bool → List (ℕ × Happening) → Dispatcher → Dispatcher
  happen_all offline [] s = s
  happen_all offline ((now, h) ∷ hs) s = happen_all offline hs (happen offline now h s).1

abbrev pub tasks : List (ℕ × Happening) → List Task
tasks [] = []
tasks ((now, h) ∷ hs) = task h ∷ tasks hs

-- An offline happening appends one row, which stands for its task, and sends nothing.
record Queued (root : FilePath) (h : Happening) (q : QueueTable) (s s' : Dispatcher) : Type 0 where
  row : OfflineTask
  queue :
      s'.db.offline_queue ≡ some (record { rows = q.rows ++ row ∷ []; sequence = q.sequence + 1 })
  numbered : row.id ≡ q.sequence + 1
  means : task_of root row ≡ some (task h)
  channel : s'.channel ≡ s.channel

abbrev pub AllInside : FilePath → List (ℕ × Happening) → Type 0
AllInside root hs = All (λ h. HappensInside root h.1) hs

-- After offline happenings the queue holds their tasks behind the old ones.
record AllQueued (root : FilePath) (hs : List (ℕ × Happening)) (q : QueueTable) (s s' : Dispatcher)
    : Type 0 where
  end : QueueTable
  queue : s'.db.offline_queue ≡ some end
  rising : IsQueue end
  means : tasks_of root end.rows ≡ tasks_of root q.rows ++ tasks hs
  known : unknown root end.rows ≡ unknown root q.rows
  channel : s'.channel ≡ s.channel
