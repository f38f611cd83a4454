-- ===== src/Engine/Scan/Run.antt =====
-- src/engine/scan.rs: `run`, the phases one after another.
use syncgdrive.Base.{
  Text, codes, Bool, true, false, List, [], length, Act, pure, lift, modify, when, ◌>>=◌,
  or_context,
}
use syncgdrive.Paths.{FilePath, parse}
use syncgdrive.Config.{AppConfig, SyncPair, get_primary_pair}
use syncgdrive.Db.{all_paths}
use syncgdrive.Remote.{RemoteIndex}
use syncgdrive.Engine.Status.{idle, scan_progress, remote_listing, local_listing, comparing}
use syncgdrive.Engine.Worker.{Environment, Provider, ask_db, is_ignored}
use syncgdrive.Engine.Scan.{
  ScanState, Walk, Listing, on_base, report, remote_index, fill_cache, list_local, create_dirs,
}
use syncgdrive.Engine.Scan.Compare.{compare_files, retain_filled, sum_len}
use syncgdrive.Engine.Scan.Queueing.{
  relative_paths, with_tracker, enqueue_files, delete_db_orphans, delete_remote_orphans,
}

-- The test of `filter_entry`.
abbrev pub keeps_entry : Environment → FilePath → Bool → Bool
keeps_entry env path is_dir = elim (is_ignored env path is_dir) [ true ↦ false | false ↦ true ]

module _ {R : Type 0} (env : Environment) (walk : Walk) (provider : Provider R) (cfg : AppConfig)
    (dry_run : Bool) where
  abbrev pub not_dry : Bool
  not_dry = elim dry_run [ true ↦ false | false ↦ true ]

  -- Phases 4 to 6.
  unfoldable pub queue_tasks :
      FilePath
      → RemoteIndex
      → List FilePath
      → List Text
      → List FilePath
      → Act (ScanState R) (Unit {0})
  queue_tasks root index files db_index to_sync =
      enqueue_files env dry_run 0 (length to_sync) to_sync >>= λ _.
      delete_db_orphans env dry_run root (relative_paths root files) db_index >>= λ _.
      delete_remote_orphans env dry_run root (relative_paths root files) db_index index.files

  -- Phase 3.
  unfoldable pub compare : FilePath → List Text → List FilePath → Act (ScanState R) (List FilePath)
  compare root db_index files =
      compare_files env root db_index 0 (length files) files [] >>= λ to_sync.
      on_base (retain_filled env to_sync) >>= λ filled. on_base (sum_len env filled) >>= λ bytes.
      when not_dry
        (modify (with_tracker (λ t. record t { total_files = length filled; total_bytes = bytes })))
      >>= λ _. pure filled

  -- From the local listing on.
  unfoldable pub synchronise : SyncPair → RemoteIndex → Listing → Act (ScanState R) (Unit {0})
  synchronise primary index found =
      let root = parse primary.local_path in
      create_dirs env provider cfg dry_run primary root 0 (length found.dirs) found.dirs >>= λ _.
      report (scan_progress comparing 0 (length found.files) (codes "comparaison…")) >>= λ _.
      on_base (ask_db all_paths) >>= λ db_index. compare root db_index found.files >>= λ to_sync.
      queue_tasks root index found.files db_index to_sync

  -- From the remote index on.
  unfoldable pub run_listed : SyncPair → RemoteIndex → Act (ScanState R) (Unit {0})
  run_listed primary index = fill_cache index >>= λ _.
      report (scan_progress local_listing 0 0 (codes "inventaire local…")) >>= λ _.
      list_local env (parse primary.local_path) 0
        (walk (parse primary.local_path) (keeps_entry env)) (record { dirs = []; files = [] })
      >>= λ found. synchronise primary index found >>= λ _. when dry_run (report idle)

  unfoldable pub run : Act (ScanState R) (Unit {0})
  run = lift (or_context (codes "Aucun dossier") (get_primary_pair cfg)) >>= λ primary.
      report (scan_progress remote_listing 0 0 (codes "listing remote…")) >>= λ _.
      remote_index provider primary.remote_folder_id >>= λ index. run_listed primary index
