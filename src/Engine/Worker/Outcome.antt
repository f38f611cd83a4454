-- ===== src/Engine/Worker/Outcome.antt =====
-- src/engine/worker.rs: what a task leaves in the cache and in the index.
use syncgdrive.Base.{
  err, ℕ, ◌-◌, ◌≡◌, codes, Text, true, some, Result, ok, Error, [], ◌∷◌, ◌++◌, Act, ◌>>=◌,
}
use syncgdrive.Paths.{FilePath, parse, parent}
use syncgdrive.Config.{AppConfig, SyncPair}
use syncgdrive.Db.{FileEntry, upsert}
use syncgdrive.Remote.{UploadResult}
use syncgdrive.Remote.PathCache.{lookup, insert}
use syncgdrive.Engine.Progress.{set_current_file}
use syncgdrive.Engine.Worker.{
  Environment, Provider, State, parent_rel_str, is_known, drive_id_of, render_or_empty,
}
use syncgdrive.Engine.Worker.Sync.{upload_loop, name_of, record_upload}
use syncgdrive.Engine.Worker.Attempts.{Same, IsDigest, IsUpload}

module _ {R : Type 0} (env : Environment) (provider : Provider R) (cfg : AppConfig) where
  -- What `sync_file` does to the cache and the index.
  pub data Synced (path : FilePath) (s : State R) : Result (Unit {0}) × State R → Type 0 where
    -- Nothing.
    kept : (r : Result (Unit {0})) (s' : State R) → Same s s' → Synced path s (r, s')
    -- The file is known with this content: its row gets the new time.
    refreshed :
        (e : FileEntry) (s' : State R)
        → IsDigest env path e.hash
        → is_known (lookup s.path_cache e.path) ≡ true
        → s'.path_cache ≡ s.path_cache
        → s'.db ≡ (upsert e s.db).1
        → Synced path s (ok tt, s')
    -- The provider has been asked to send the file and nothing since, and its answer verified: the
    -- cache and the index have it.
    sent :
        (e : FileEntry) (res : UploadResult) (parent_id name : Text) (s' : State R)
        → name_of env provider cfg path ≡ ok name
        → IsUpload env provider cfg path parent_id name res s'
        → IsDigest env path e.hash
        → IsDigest env path res.md5_checksum
        → s'.path_cache ≡ insert s.path_cache e.path res.drive_id parent_id
        → s'.db ≡ (upsert e s.db).1
        → Synced path s (ok tt, s')
    -- The file has been sent and verified, and the cache has it, but the lock or SQLite failed at the
    -- index.
    unrecorded :
        (rel : Text) (res : UploadResult) (parent_id name : Text) (n : ℕ) (x : Error) (s' : State R)
        → name_of env provider cfg path ≡ ok name
        → IsUpload env provider cfg path parent_id name res s'
        → IsDigest env path res.md5_checksum
        → env.db_fault n ≡ some x
        → s'.path_cache ≡ insert s.path_cache rel res.drive_id parent_id
        → s'.db ≡ s.db
        → Synced path s (err x, s')

  abbrev start : FilePath → Text → ℕ → State R → State R
  start path name size s = record s {
    tracker = set_current_file (render_or_empty (parent path)) name size s.tracker;
  }

  abbrev no_folder : FilePath → SyncPair → Error
  no_folder path primary =
      (codes "Dossier parent introuvable dans le cache : "
        ++ parent_rel_str (parse primary.local_path) path)
      ∷ []

  abbrev sending : FilePath → Text → ℕ → Text → ℕ → Text → Text → Act (State R) (Unit {0})
  sending path rel size hash m name parent_id s =
      (upload_loop env provider cfg (cfg.retry.max_attempts - 1) path parent_id name
            (drive_id_of (lookup s.path_cache rel))
          >>= record_upload env provider cfg rel hash m parent_id)
        (start path name size s)
