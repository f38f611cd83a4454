-- ===== src/Engine/Offline/Delivery.antt =====
-- src/engine/offline.rs: each queued task is delivered once, in order, or stays queued.
use syncgdrive.Base.{
  ℕ, ◌≤◌, ◌≡◌, none, some, List, [], ◌∷◌, ◌++◌, length, Result, ok, err, true, ◌⊎◌,
}
use syncgdrive.Paths.{FilePath}
use syncgdrive.Db.{OfflineTask}
use syncgdrive.Db.Queue.{Rising}
use syncgdrive.Engine.Tasks.{Task}
use syncgdrive.Engine.Offline.{Flush, task_of}

-- The tasks that the rows stand for, in order; a row with an unknown action stands for none.
abbrev pub tasks_of : FilePath → List OfflineTask → List Task
tasks_of root [] = []
tasks_of root (ot ∷ ots) = elim (task_of root ot) [
  | none ↦ tasks_of root ots
  | some task ↦ task ∷ tasks_of root ots
]

-- The rows with an unknown action.
abbrev pub unknown : FilePath → List OfflineTask → List OfflineTask
unknown root [] = []
unknown root (ot ∷ ots) = elim (task_of root ot) [
  | none ↦ ot ∷ unknown root ots
  | some task ↦ unknown root ots
]

-- A flush in progress: `skipped` rows stay, `ots` are still to be treated.
pub record InProgress (skipped ots : List OfflineTask) (sequence : ℕ) (s : Flush) : Type 0 where
  pub queue : s.db.offline_queue ≡ some (record { rows = skipped ++ ots; sequence = sequence })
  pub rising : Rising 0 (skipped ++ ots) sequence

-- What a flush of `ots` has done: the tasks that it delivered, and the rows that are left.
pub record Delivered (root : FilePath) (skipped ots : List OfflineTask) (sequence : ℕ) (s : Flush)
    (out : Result (Unit {0}) × Flush) : Type 0 where
  pub delivered : List Task
  pub left : List OfflineTask
  pub finished : (out.0 ≡ ok tt) ⊎ ((out.0 ≡ err []) × (s.channel.is_full ≡ true))
  pub sent : out.1.channel.sent ≡ s.channel.sent ++ delivered
  pub queue : out.1.db.offline_queue ≡ some (record { rows = skipped ++ left; sequence = sequence })
  pub accounted : tasks_of root ots ≡ delivered ++ tasks_of root left
  pub complete :
      length (tasks_of root ots) ≤ s.channel.room → (out.0 ≡ ok tt) × (left ≡ unknown root ots)

module _ (root : FilePath) (ot : OfflineTask) (ots skipped : List OfflineTask) (sequence : ℕ)
    (s : Flush) where
  -- The state after a task was sent and its row removed.
  abbrev after_row : Task → ℕ → Flush
  after_row task room = record {
    db = record (s.db) {
      offline_queue = some (record { rows = skipped ++ ots; sequence = sequence });
    };
    channel = record (s.channel) { sent = s.channel.sent ++ task ∷ []; room = room };
  }
