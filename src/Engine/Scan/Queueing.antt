-- ===== src/Engine/Scan/Queueing.antt =====
-- src/engine/scan.rs, phases 4 to 6: the tasks that a scan hands to the workers.
use syncgdrive.Base.{
  ℕ, ◌+◌, Text, codes, Bool, true, false, ◌||◌, none, some, List, [], ◌∷◌, member, ok, err, Error,
  Act, pure, modify, when, ◌>>=◌,
}
use syncgdrive.Paths.{FilePath, parse, render, join, strip_prefix}
use syncgdrive.Remote.{RemoteFile}
use syncgdrive.Engine.Progress.{ProgressTracker, fetch_add}
use syncgdrive.Engine.Status.{scan_progress, comparing}
use syncgdrive.Engine.Tasks.{Task, sync_file, delete, send, unsent}
use syncgdrive.Engine.Worker.{Environment, State, is_ignored, is_dir_at}
use syncgdrive.Engine.Scan.{ScanState, on_base, report, check_shutdown, name_or_empty}
use syncgdrive.Engine.Scan.Compare.{look}

abbrev pub closed_error : Error
closed_error = codes "shutdown: task queue closed" ∷ []

-- `local_rel_set`
unfoldable pub relative_paths : FilePath → List FilePath → List Text
relative_paths root [] = []
relative_paths root (path ∷ paths) =
    let rest = relative_paths root paths in
    elim (strip_prefix root path) [ none ↦ rest | some rel ↦ render rel ∷ rest ]

module _ {R : Type 0} where
  abbrev pub with_tracker : (ProgressTracker → ProgressTracker) → ScanState R → ScanState R
  with_tracker f s = record s { base = record (s.base) { tracker = f s.base.tracker } }

  -- `task_tx.send(task).await`, or the report of a simulation.
  unfoldable pub submit : Bool → Task → Act (ScanState R) (Unit {0})
  submit dry_run task s = elim dry_run [
    | true ↦ (ok tt, s)
    | false ↦
        let (delivered, channel) = send task s.channel in
        elim delivered [
          | true ↦ (ok tt, record s { channel = channel })
          | false ↦ (unsent channel (err closed_error), record s { channel = channel })
        ]
  ]

  -- A deletion: it counts as a file of the progress.
  unfoldable pub submit_delete : Bool → FilePath → Act (ScanState R) (Unit {0})
  submit_delete dry_run path =
      when (elim dry_run [ true ↦ false | false ↦ true ])
        (modify (with_tracker (λ t. record t { total_files = fetch_add t.total_files 1 })))
      >>= λ _. submit dry_run (delete path)

module _ {R : Type 0} (env : Environment) where
  -- The guards of phase 6 after the first: true where the remote file is left alone.
  unfoldable pub is_spared : List Text → Text → FilePath → Act (State R) Bool
  is_spared db_index rel path = look (is_dir_at env path) >>= λ is_dir.
      elim (is_dir || member rel db_index) [
        | true ↦ pure true
        | false ↦ look (λ now. is_ignored env path (is_dir_at env path now))
      ]

module _ {R : Type 0} (env : Environment) (dry_run : Bool) where
  -- Phase 4: the loop over the files to send.
  unfoldable pub enqueue_files : ℕ → ℕ → List FilePath → Act (ScanState R) (Unit {0})
  enqueue_files i total [] = pure tt
  enqueue_files i total (path ∷ paths) = check_shutdown env >>= λ _.
      report (scan_progress comparing (i + 1) total (name_or_empty path)) >>= λ _.
      submit dry_run (sync_file path) >>= λ _. enqueue_files (i + 1) total paths

  -- Phase 5: rows of the index whose file is not there any more.
  unfoldable pub delete_db_orphans : FilePath → List Text → List Text → Act (ScanState R) (Unit {0})
  delete_db_orphans root local_rels [] = pure tt
  delete_db_orphans root local_rels (db_path ∷ db_paths) = check_shutdown env >>= λ _.
      elim (member db_path local_rels) [
        | true ↦ pure tt
        | false ↦ submit_delete dry_run (join root (parse db_path))
      ]
      >>= λ _. delete_db_orphans root local_rels db_paths

  -- One file of phase 6.
  unfoldable pub delete_remote_orphan :
      FilePath → List Text → List Text → Text → Act (ScanState R) (Unit {0})
  delete_remote_orphan root local_rels db_index rel =
      let path = join root (parse rel) in
      elim (member rel local_rels) [
        | true ↦ pure tt
        | false ↦ on_base (is_spared env db_index rel path) >>= λ spared. elim spared [
          | true ↦ pure tt
          | false ↦ submit_delete dry_run path
        ]
      ]

  -- Phase 6: remote files that are neither here nor in the index.
  unfoldable pub delete_remote_orphans :
      FilePath → List Text → List Text → List RemoteFile → Act (ScanState R) (Unit {0})
  delete_remote_orphans root local_rels db_index [] = pure tt
  delete_remote_orphans root local_rels db_index (file ∷ files) = check_shutdown env >>= λ _.
      delete_remote_orphan root local_rels db_index file.relative_path >>= λ _.
      delete_remote_orphans root local_rels db_index files
