-- ===== src/Engine/Worker/Sync.antt =====
-- src/engine/worker.rs: `sync_file`. Its nested conditions stand in the functions that follow one
-- another from the name of the file back to the first look at it.
use syncgdrive.Base.{
  ℕ, zero, suc, ◌-◌, Text, codes, is_empty, true, false, not, ◌&&◌, ◌||◌, Option, none, some, [],
  ◌∷◌, ◌++◌, ◌==◌, Result, ok, err, Error, context, or_context, Act, pure, fail, lift, ◌>>=◌,
}
use syncgdrive.Paths.{FilePath, parse, parent, file_name}
use syncgdrive.Config.{AppConfig, SyncPair, get_primary_pair}
use syncgdrive.Db.{get_file, upsert, or_fault}
use syncgdrive.Remote.{UploadResult}
use syncgdrive.Remote.PathCache.{lookup, insert}
use syncgdrive.Engine.Progress.{set_current_file}
use syncgdrive.Engine.Worker.{
  observe, ask_db, on_db_at, on_transfer, drive_id_of, is_known, render_or_empty, rel_str,
  parent_rel_str, has_mtime, has_hash, is_ignored, is_file_at, mtime, hash_file, verify_upload,
  cancelled_error, paused_error, mismatch_error, upload_error, is_cancelled, Environment, Provider,
  State, intact, mismatch,
}

module _ {R : Type 0} (env : Environment) (provider : Provider R) (cfg : AppConfig) where
  -- One pass of the upload loop; `again` is what follows a failure, with the identifier that the
  -- next pass replaces.
  abbrev pub upload_once :
      FilePath
      → Text
      → Text
      → Option Text
      → (Option Text → Error → Act (State R) UploadResult)
      → Act (State R) UploadResult
  upload_once path parent_id name last_id again = is_cancelled env >>= λ stop. elim stop [
    | true ↦ fail cancelled_error
    | false ↦ λ s.
        let (r, s₁) = on_transfer (provider.upload path parent_id name last_id) s in
        elim r [
          | err e ↦ again last_id (upload_error e) s₁
          | ok res ↦
              let (v, s₂) = observe (verify_upload env path res) s₁ in
              elim v [
                | ok verdict ↦ elim verdict [
                  | intact ↦ (ok res, s₂)
                  | mismatch l r ↦
                      again (some res.drive_id) (mismatch_error cfg.retry.max_attempts) s₂
                ]
                | err e ↦ again (some res.drive_id) (mismatch_error cfg.retry.max_attempts) s₂
              ]
        ]
  ]

  -- The `loop` of the uploads, by the number of passes left.
  unfoldable pub upload_loop : ℕ → FilePath → Text → Text → Option Text → Act (State R) UploadResult
  upload_loop zero path parent_id name last_id =
      upload_once path parent_id name last_id (λ _ e. fail e)
  upload_loop (suc left) path parent_id name last_id =
      upload_once path parent_id name last_id (λ id e. is_cancelled env >>= λ stop. elim stop [
        | true ↦ fail paused_error
        | false ↦ upload_loop left path parent_id name id
      ])

  -- The identifier of the folder that holds a path.
  unfoldable pub folder_id : SyncPair → Text → Error → Act (State R) Text
  folder_id primary parent_rel e s = elim (is_empty parent_rel) [
    | true ↦ (ok primary.remote_folder_id, s)
    | false ↦ elim (drive_id_of (lookup s.path_cache parent_rel)) [
      | none ↦ (err e, s)
      | some id ↦ (ok id, s)
    ]
  ]

  -- `file_name().unwrap()`: a path without a name ends the task.
  abbrev pub name_of : FilePath → Result Text
  name_of path = or_context (codes "called `Option::unwrap()` on a `None` value") (file_name path)

  -- What follows an upload: the cache, then the index.
  abbrev pub record_upload : Text → Text → ℕ → Text → UploadResult → Act (State R) (Unit {0})
  record_upload rel hash mtime parent_id res s =
      on_db_at env.db_fault
        (λ fault. or_fault fault (upsert (record { path = rel; hash = hash; mtime = mtime })))
        (record s { path_cache = insert s.path_cache rel res.drive_id parent_id })

  -- `sync_file`, from the name of the file on.
  unfoldable pub transfer : FilePath → SyncPair → Text → ℕ → Text → ℕ → Act (State R) (Unit {0})
  transfer path primary rel size hash mtime = lift (name_of path) >>= λ name.
      let parent_rel = parent_rel_str (parse primary.local_path) path in
      folder_id primary parent_rel
        ((codes "Dossier parent introuvable dans le cache : " ++ parent_rel) ∷ [])
      >>= λ parent_id. λ s.
        (upload_loop (cfg.retry.max_attempts - 1) path parent_id name
              (drive_id_of (lookup s.path_cache rel))
            >>= record_upload rel hash mtime parent_id)
          (record s {
            tracker = set_current_file (render_or_empty (parent path)) name size s.tracker;
          })

  -- `sync_file`, from the deep check on.
  unfoldable pub sync_hash : FilePath → SyncPair → Text → ℕ → ℕ → Text → Act (State R) (Unit {0})
  sync_hash path primary rel size mtime hash = ask_db (get_file rel) >>= λ e. λ s.
      elim (has_hash hash e && is_known (lookup s.path_cache rel)) [
        | true ↦
            on_db_at env.db_fault
              (λ fault. or_fault fault (upsert (record { path = rel; hash = hash; mtime = mtime })))
              s
        | false ↦ transfer path primary rel size hash mtime s
      ]

  -- `sync_file`, from the digest on.
  unfoldable pub sync_content : FilePath → SyncPair → Text → ℕ → ℕ → Act (State R) (Unit {0})
  sync_content path primary rel size mtime s =
      let (h, s₁) = observe (hash_file env path) s in
      elim h [
        | ok hash ↦ sync_hash path primary rel size mtime hash s₁
        | err e ↦
            (observe (λ now. ok (is_file_at env path now)) >>= λ there. elim there [
              | false ↦ pure tt
              | true ↦ is_cancelled env >>= λ stop. elim stop [ true ↦ pure tt | false ↦ fail e ]
            ])
              s₁
      ]

  -- `sync_file`, from the quick check on.
  unfoldable pub sync_changed : FilePath → SyncPair → Text → ℕ → ℕ → Act (State R) (Unit {0})
  sync_changed path primary rel size m = ask_db (get_file rel) >>= λ e. λ s.
      elim (has_mtime m e && is_known (lookup s.path_cache rel)) [
        | true ↦ (ok tt, s)
        | false ↦
            (is_cancelled env >>= λ stop. elim stop [
              | true ↦ pure tt
              | false ↦ sync_content path primary rel size m
            ])
              s
      ]

  unfoldable pub sync_file : FilePath → Act (State R) (Unit {0})
  sync_file path = observe (λ now. env.stat now path) >>= λ meta.
      elim (is_ignored env path meta.is_dir || not meta.is_file) [
        | true ↦ pure tt
        | false ↦
            observe (λ now. context (codes "Metadata inaccessible") (env.stat now path))
            >>= λ metadata. elim (metadata.len == 0) [
              | true ↦ pure tt
              | false ↦
                  lift (or_context (codes "Aucun dossier") (get_primary_pair cfg)) >>= λ primary.
                  lift (rel_str (parse primary.local_path) path) >>= λ rel.
                  observe (mtime env path) >>= λ m. sync_changed path primary rel metadata.len m
            ]
      ]
