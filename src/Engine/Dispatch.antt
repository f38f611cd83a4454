-- ===== src/Engine/Dispatch.antt =====
-- src/engine/mod.rs: `spawn_debounced_dispatch`, one pass of its loop for each event. The watcher's
-- events are those of src/engine/watcher.rs. The time is in nanoseconds. `HashMap` is a list in the
-- order of arrival; the source visits the ready paths in an order that it does not determine.
pub mod Debounce
pub mod Survival
mod Examples
use syncgdrive.Base.{
  ℕ, ◌+◌, ◌-◌, ◌*◌, Text, codes, text_eq, Bool, true, false, not, ◌&&◌, Option, none, some, List,
  [], ◌∷◌, leb, keep, if◌then◌else◌, Result, ok, err,
}
use syncgdrive.Paths.{FilePath, same_root, strip_prefix, render}
use syncgdrive.Db.{Database, push_offline_task}
use syncgdrive.Engine.Tasks.{Task, sync_file, delete, rename, Channel, send}
use syncgdrive.Engine.Progress.{ProgressTracker, fetch_add}

pub data WatchEvent : Type 0 where
  modified : FilePath → WatchEvent
  deleted : FilePath → WatchEvent
  renamed : FilePath → FilePath → WatchEvent

unfoldable pub parts_eq : List Text → List Text → Bool
parts_eq [] [] = true
parts_eq (s ∷ ss) (t ∷ ts) = text_eq s t && parts_eq ss ts
parts_eq _ _ = false

-- `PathBuf::eq`
unfoldable pub path_eq : FilePath → FilePath → Bool
path_eq p q = same_root p.absolute q.absolute && parts_eq p.parts q.parts

pub record Waiting : Type 0 where
  pub path : FilePath
  pub since : ℕ

pub record Dispatcher : Type 0 where
  pub pending : List Waiting
  pub channel : Channel
  pub tracker : ProgressTracker
  pub db : Database

unfoldable pub remove_pending : FilePath → List Waiting → List Waiting
remove_pending p = keep λ w. not (path_eq w.path p)

-- `pending.insert(p, now)`
unfoldable pub insert_pending : FilePath → ℕ → List Waiting → List Waiting
insert_pending p now [] = record { path = p; since = now } ∷ []
insert_pending p now (w ∷ ws) =
    if path_eq w.path p then record { path = p; since = now } ∷ ws else w ∷ insert_pending p now ws

-- An event of the watcher, as a task and as a row of the offline queue.
pub record Settings : Type 0 where
  pub debounce_ms : ℕ
  pub local_root : FilePath
  pub file_len : FilePath → ℕ

abbrev pub million : ℕ
million = 1000000

-- `let _ = db.push_offline_task(…)`: an error is dropped.
abbrev pub push : Text → FilePath → Option FilePath → ℕ → Dispatcher → Dispatcher
push action rel extra now s = record s {
  db =
      (push_offline_task action (render rel) (elim extra [ none ↦ none | some e ↦ some (render e) ])
        now s.db).1;
}

-- `task_tx.send(task).await`, with the counter of files: false ends the dispatcher.
abbrev pub submit : Task → Dispatcher → Bool × Dispatcher
submit task s =
    let (delivered, channel) = send task s.channel in
    (
      delivered,
      record s {
        channel = channel;
        tracker = record (s.tracker) { total_files = fetch_add s.tracker.total_files 1 };
      },
    )

module _ (cfg : Settings) where
  unfoldable pub is_ready : ℕ → Waiting → Bool
  is_ready now w = leb (cfg.debounce_ms * million) (now - w.since)

  -- One path that has waited long enough.
  unfoldable pub release : Bool → ℕ → FilePath → Dispatcher → Bool × Dispatcher
  release offline now path s₀ =
      let s = record s₀ { pending = remove_pending path s₀.pending } in
      elim offline [
        | true ↦ elim (strip_prefix cfg.local_root path) [
          | none ↦ (true, s)
          | some rel ↦ (true, push (codes "sync") rel none now s)
        ]
        | false ↦ submit (sync_file path) (record s {
          tracker = record (s.tracker) {
            total_bytes = fetch_add s.tracker.total_bytes (cfg.file_len path);
          };
        })
      ]

  -- The loop over the ready paths.
  unfoldable pub release_all : Bool → ℕ → List Waiting → Dispatcher → Bool × Dispatcher
  release_all offline now [] s = (true, s)
  release_all offline now (w ∷ ws) s =
      let (alive, s') = release offline now w.path s in
      elim alive [ true ↦ release_all offline now ws s' | false ↦ (false, s') ]

  -- The tick of the interval.
  unfoldable pub on_tick : Bool → ℕ → Dispatcher → Bool × Dispatcher
  on_tick offline now s = release_all offline now (keep (is_ready now) s.pending) s

  -- An event received from the watcher.
  unfoldable pub on_event : WatchEvent → Bool → ℕ → Dispatcher → Bool × Dispatcher
  on_event (modified p) offline now s =
      (true, record s { pending = insert_pending p now s.pending })
  on_event (deleted p) offline now s₀ =
      let s = record s₀ { pending = remove_pending p s₀.pending } in
      elim offline [
        | true ↦ elim (strip_prefix cfg.local_root p) [
          | none ↦ (true, s)
          | some rel ↦ (true, push (codes "delete") rel none now s)
        ]
        | false ↦ submit (delete p) s
      ]
  on_event (renamed from to) offline now s₀ =
      let s = record s₀ { pending = remove_pending to (remove_pending from s₀.pending) } in
      elim offline [
        | true ↦ elim (strip_prefix cfg.local_root from) [
          | none ↦ (true, s)
          | some rel_from ↦ elim (strip_prefix cfg.local_root to) [
            | none ↦ (true, s)
            | some rel_to ↦ (true, push (codes "rename") rel_to (some rel_from) now s)
          ]
        ]
        | false ↦ submit (rename from to) s
      ]
