-- ===== src/Engine/Scan/Examples.antt =====
-- A scan at a concrete folder.
use syncgdrive.Base.{
  refl, Text, codes, text_eq, true, false, some, List, [], ◌∷◌, ◌++◌, map, All, ◌≡◌, ◌>>=◌, ◌⊎◌,
  member, get, put,
}
use syncgdrive.Paths.{FilePath, strip_prefix, strip_parts, is_part, render, join_slash}
use syncgdrive.Config.{SyncPair, get_primary_pair}
use syncgdrive.Remote.PathCache.{lookup, insert}
use syncgdrive.Engine.Worker.{retry}
use syncgdrive.Engine.Tasks.{sync_file, send}
use syncgdrive.Engine.Samples.{env, provider, pair, cfg, start, at_root, walk, idle_scan}
use syncgdrive.Engine.Scan.{create_dirs, check_shutdown, ensure_dir, ensure_parts, new_dir}
use syncgdrive.Engine.Scan.Run.{run, queue_tasks}
use syncgdrive.Engine.Scan.Queueing.{
  relative_paths, enqueue_files, delete_db_orphans, delete_remote_orphans, submit, submit_delete,
}
use syncgdrive.Engine.Scan.DryRun.{run-dry_run}
use syncgdrive.Engine.Scan.Directories.{IsMade, create_dirs-Knows}
use syncgdrive.Engine.Scan.Sending.{IsUnknown, delete_below, orphans, queue_tasks-Sent}

abbrev folder : FilePath
folder = record { absolute = true; parts = codes "home" ∷ [] }

run-dry_run_example :
    let s' = (run env walk provider cfg true idle_scan).1 in
    (s'.channel ≡ idle_scan.channel)
    × (s'.base.tracker ≡ start.tracker)
    × ((s'.base.remote ≡ start.remote)
        ⊎ ((primary : SyncPair) × (get_primary_pair cfg ≡ some primary)
            × (s'.base.remote ≡ (provider.list_remote primary.remote_folder_id start.remote).1)))
run-dry_run_example = run-dry_run env provider cfg walk idle_scan

create_dirs-Knows_example :
    All
      (IsMade folder
        (create_dirs env provider cfg false pair folder 0 1 (at_root (codes "d") ∷ []) idle_scan).1)
      (at_root (codes "d") ∷ [])
unfolding create_dirs check_shutdown ensure_dir ensure_parts new_dir strip_prefix strip_parts
    text_eq is_part render join_slash lookup insert retry ◌>>=◌ get put
create_dirs-Knows_example =
    create_dirs-Knows env provider cfg false pair folder (at_root (codes "d") ∷ []) idle_scan
      ((refl, (refl, (refl, tt))), tt) refl

queue_tasks-Sent_example :
    (rels : List Text) × ((queue_tasks env walk provider cfg false folder
        (record { files = []; dirs = [] })
        (at_root (codes "b") ∷ [])
        (codes "a" ∷ [])
        (at_root (codes "b") ∷ [])
        idle_scan).1.channel.sent
      ≡ []
        ++ map sync_file (at_root (codes "b") ∷ [])
        ++ map
            (delete_below folder)
            (orphans (relative_paths folder (at_root (codes "b") ∷ [])) (codes "a" ∷ []))
        ++ map (delete_below folder) rels)
    × All (IsUnknown (relative_paths folder (at_root (codes "b") ∷ [])) (codes "a" ∷ []) []) rels
unfolding queue_tasks enqueue_files delete_db_orphans delete_remote_orphans submit submit_delete
    send check_shutdown relative_paths member strip_prefix strip_parts text_eq render join_slash
    ◌>>=◌
queue_tasks-Sent_example =
    queue_tasks-Sent env walk provider cfg folder (record { files = []; dirs = [] })
      (at_root (codes "b") ∷ []) (codes "a" ∷ []) (at_root (codes "b") ∷ []) idle_scan refl
