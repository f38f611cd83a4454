-- ===== src/Engine/Worker/Examples.antt =====
-- Tasks at a concrete file system and provider.
use syncgdrive.Base.{
  refl, codes, text_eq, true, none, some, err, max, [], ◌∷◌, ok, get, ◌≡◌, ℕ, ◌+◌, ◌≤◌, bail, ◌>>=◌,
  arith, starts_with, keep,
}
use syncgdrive.Paths.{
  FilePath, parse, strip_prefix, strip_parts, parent, file_name, split, is_part, render, join_slash,
}
use syncgdrive.Config.{get_primary_pair, first_active}
use syncgdrive.Db.{or_fault, delete_file, get_file, upsert}
use syncgdrive.Remote.{unreachable}
use syncgdrive.Engine.Progress.{new}
use syncgdrive.Engine.Samples.{env, provider, cfg, start}
use syncgdrive.Engine.Worker.{
  Environment, retry, Provider, State, verify_upload, compute_hash, hash_file, is_ignored, rel_str,
  parent_rel_str,
}
use syncgdrive.Engine.Worker.Sync.{
  sync_file, sync_changed, sync_content, sync_hash, transfer, upload_loop, folder_id,
}
use syncgdrive.Engine.Worker.Tasks.{delete_rel}
use syncgdrive.Remote.PathCache.{lookup}
use syncgdrive.Engine.Worker.Sends.{sync_file-asked}

abbrev target : FilePath
target = record { absolute = true; parts = codes "home" ∷ codes "b" ∷ [] }

-- A provider that counts the uploads and refuses each.
abbrev refusing : Provider ℕ
refusing = record {
  upload = λ path parent name id s. (bail (codes "403"), (s.0 + 1, s.1));
  delete = λ id n. (ok tt, n);
  rename = λ id name parent n. (ok tt, n);
  list_remote = λ id r. (ok (record { files = []; dirs = [] }), r);
  mkdir = λ parent name r. (ok name, r);
  check_health = λ r. (ok unreachable, r);
  refresh_auth = λ r. (ok tt, r);
}

abbrev counting : State ℕ
counting = record { remote = 0; tracker = new; path_cache = []; db = start.db; clock = 0 }

upload_loop_refused : (upload_loop env refusing cfg 2 target [] [] none counting).1.remote ≡ 3
unfolding upload_loop ◌>>=◌
upload_loop_refused = refl

sync_file-asked_example :
    (sync_file env refusing cfg target counting).1.remote ≤ 0 + max 1 cfg.retry.max_attempts
sync_file-asked_example =
    sync_file-asked env refusing cfg (λ n. n) (λ path parent name id r t. omega arith) target
      counting

-- The index cannot be written after the deletion: the cache has lost the path.
abbrev failing : Environment
failing = record env { db_fault = λ n. some (codes "disk I/O error" ∷ []) }

delete_rel_fault :
    (delete_rel failing provider cfg (codes "a") start).0 ≡ err (codes "disk I/O error" ∷ [])
unfolding delete_rel retry delete_file lookup get text_eq ◌>>=◌
delete_rel_fault = refl

sync_file-target : (sync_file env provider cfg target start).0 ≡ ok tt
unfolding sync_file sync_changed sync_content sync_hash transfer upload_loop folder_id ◌>>=◌ get
    text_eq verify_upload compute_hash hash_file is_ignored rel_str parent_rel_str parse
    strip_prefix strip_parts parent file_name split is_part keep starts_with get_file upsert
    or_fault lookup get_primary_pair first_active render join_slash
sync_file-target = refl
