-- ===== src/Engine/Offline.antt =====
-- src/engine/offline.rs: the offline queue is sent to the workers when the network is back.
pub mod Delivery
mod Examples
use syncgdrive.Base.{
  ℕ, Text, codes, text_eq, Bool, true, false, Option, none, some, List, [], ◌∷◌, is_empty, Result,
  ok, err, if◌then◌else◌,
}
use syncgdrive.Paths.{FilePath, parse, join}
use syncgdrive.Db.{Database, OfflineTask, get_offline_tasks, remove_offline_task}
use syncgdrive.Engine.Tasks.{Task, sync_file, delete, rename, Channel, send, unsent}

-- The `match` on the action; none for an action that is unknown.
unfoldable pub task_of : FilePath → OfflineTask → Option Task
task_of local_root ot =
    if text_eq ot.action (codes "sync")
    then some (sync_file (join local_root (parse ot.relative_path)))
    else if text_eq ot.action (codes "delete")
    then some (delete (join local_root (parse ot.relative_path)))
    else if text_eq ot.action (codes "rename")
    then some (
        rename (join local_root (parse (elim ot.extra [ some s ↦ s | none ↦ [] ])))
          (join local_root (parse ot.relative_path)))
    else none

pub record Flush : Type 0 where
  pub db : Database
  pub channel : Channel

-- What follows a task that was sent: its row is deleted, and the rest goes on if that worked.
unfoldable pub after_send :
    OfflineTask → (Flush → Result (Unit {0}) × Flush) → Flush → Result (Unit {0}) × Flush
after_send ot rest s =
    let (r, db) = remove_offline_task ot.id s.db in
    elim r [ ok _ ↦ rest (record s { db = db }) | err e ↦ (err e, record s { db = db }) ]

-- The loop over the tasks.
unfoldable pub flush_tasks : FilePath → List OfflineTask → Flush → Result (Unit {0}) × Flush
flush_tasks local_root [] s = (ok tt, s)
flush_tasks local_root (ot ∷ ots) s = elim (task_of local_root ot) [
  | none ↦ flush_tasks local_root ots s
  | some task ↦
      let (delivered, channel) = send task s.channel in
      elim delivered [
        | true ↦ after_send ot (flush_tasks local_root ots) (record s { channel = channel })
        | false ↦ (unsent channel (ok tt), record s { channel = channel })
      ]
]

unfoldable pub flush_queue : FilePath → Flush → Result (Unit {0}) × Flush
flush_queue local_root s = elim (get_offline_tasks s.db) [
  | err e ↦ (err e, s)
  | ok tasks ↦ elim (is_empty tasks) [ true ↦ (ok tt, s) | false ↦ flush_tasks local_root tasks s ]
]
