-- ===== src/Engine/Worker/Sends.antt =====
-- src/engine/worker.rs: how often a task asks the provider to upload a file.
use syncgdrive.Base.{
  ℕ, ◌+◌, ◌-◌, ◌≤◌, ◌≡◌, refl, ap, max, Text, not, ◌&&◌, ◌||◌, ◌==◌, Bool-cases, Option,
  Result-cases, inl, inr, arith, Act, ◌>>=◌, Error,
}
use syncgdrive.Paths.{FilePath}
use syncgdrive.Config.{AppConfig, SyncPair}
use syncgdrive.Remote.{UploadResult}
use syncgdrive.Remote.PathCache.{lookup}
use syncgdrive.Engine.Progress.{ProgressTracker}
use syncgdrive.Engine.Worker.{
  Environment, Provider, State, hash_file, is_ignored, is_known, has_hash, has_mtime,
}
use syncgdrive.Engine.Worker.Sync.{
  upload_loop, folder_id, record_upload, transfer, sync_hash, sync_content, sync_changed, sync_file,
}
use syncgdrive.Engine.Worker.Attempts.{tick, upload_loop-asked}

-- The attempts that a configuration allows: a transfer makes one even where it says 0.
abbrev pub attempts : AppConfig → ℕ
attempts cfg = max 1 cfg.retry.max_attempts

module _ {R : Type 0} (env : Environment) (provider : Provider R) (cfg : AppConfig) (asked : R → ℕ)
    (counts : (path : FilePath) (parent_id name : Text) (id : Option Text) (r : R)
        (t : ProgressTracker)
      → asked (provider.upload path parent_id name id (r, t)).1.0 ≤ asked r + 1) where
  -- An action asks at most `n` times.
  abbrev AtMost : {A : Type 0} → ℕ → Act (State R) A → State R → Type 0
  AtMost n m s = asked (m s).1.remote ≤ asked s.remote + n

  bind-AtMost :
      {A B : Type 0} (n : ℕ) (m : Act (State R) A) (f : A → Act (State R) B) (s : State R)
      → (m s).1.remote ≡ s.remote
      → ((a : A) → AtMost n (f a) (m s).1)
      → AtMost n (m >>= f) s
  unfolding ◌>>=◌
  bind-AtMost n m f s same next = elim (Result-cases (m s).0) [
    | inl (a, e) ↦ rw (◌>>=◌, e) (omega (arith, ap asked same, next a))
    | inr (x, e) ↦ rw (◌>>=◌, e) (omega (arith, ap asked same))
  ]

  then-AtMost :
      {A B : Type 0} (n : ℕ) (m : Act (State R) A) (f : A → Act (State R) B) (s : State R)
      → AtMost n m s
      → ((a : A) (t : State R) → (f a t).1.remote ≡ t.remote)
      → AtMost n (m >>= f) s
  unfolding ◌>>=◌
  then-AtMost n m f s first still = elim (Result-cases (m s).0) [
    | inl (a, e) ↦ rw (◌>>=◌, e) (omega (arith, ap asked (still a (m s).1), first))
    | inr (x, e) ↦ rw (◌>>=◌, e) first
  ]

  folder_id-still :
      (primary : SyncPair) (rel : Text) (e : Error) (s : State R)
      → (folder_id env provider cfg primary rel e s).1.remote ≡ s.remote
  unfolding folder_id
  folder_id-still primary rel e s = ground arith

  record_upload-still :
      (rel hash : Text) (m : ℕ) (parent_id : Text) (res : UploadResult) (s : State R)
      → (record_upload env provider cfg rel hash m parent_id res s).1.remote ≡ s.remote
  record_upload-still rel hash m parent_id res s = refl

  transfer-AtMost :
      (path : FilePath) (primary : SyncPair) (rel : Text) (size : ℕ) (hash : Text) (m : ℕ)
      (s : State R)
      → AtMost (attempts cfg) (transfer env provider cfg path primary rel size hash m) s
  unfolding transfer
  transfer-AtMost path primary rel size hash m s = bind-AtMost _ _ _ s refl λ name.
      bind-AtMost _ (folder_id env provider cfg primary _ _) _ s (folder_id-still primary _ _ s)
        λ parent_id.
          then-AtMost (attempts cfg)
            (upload_loop env provider cfg (cfg.retry.max_attempts - 1) path parent_id name _)
            (record_upload env provider cfg rel hash m parent_id) _
            (omega (
              arith,
              upload_loop-asked env provider cfg asked counts (cfg.retry.max_attempts - 1) path
                  parent_id name _ _,
            ))
            (λ res t. record_upload-still rel hash m parent_id res t)

  sync_hash-AtMost :
      (path : FilePath) (primary : SyncPair) (rel : Text) (size m : ℕ) (hash : Text) (s : State R)
      → AtMost (attempts cfg) (sync_hash env provider cfg path primary rel size m hash) s
  unfolding sync_hash
  sync_hash-AtMost path primary rel size m hash s = bind-AtMost _ _ _ s refl λ e.
      elim (Bool-cases (has_hash hash e && is_known (lookup s.path_cache rel))) [
        | inl known ↦ rw known (omega arith)
        | inr new ↦ rw new (transfer-AtMost path primary rel size hash m s)
      ]

  sync_content-AtMost :
      (path : FilePath) (primary : SyncPair) (rel : Text) (size m : ℕ) (s : State R)
      → AtMost (attempts cfg) (sync_content env provider cfg path primary rel size m) s
  unfolding sync_content
  sync_content-AtMost path primary rel size m s = elim (Result-cases (hash_file env path s.clock)) [
    | inl (hash, read) ↦
        rw (sync_content, read) (sync_hash-AtMost path primary rel size m hash (tick s))
    | inr (e, read) ↦
        rw (sync_content, read)
          (bind-AtMost (attempts cfg) _ _ (tick s) refl λ there. elim (Bool-cases there) [
            | inr gone ↦ rw gone (omega arith)
            | inl still ↦ rw still (
                bind-AtMost (attempts cfg) _ _ _ refl λ stop. elim (Bool-cases stop) [
                  | inl stopped ↦ rw stopped (omega arith)
                  | inr going ↦ rw going (omega arith)
                ])
          ])
  ]

  sync_changed-AtMost :
      (path : FilePath) (primary : SyncPair) (rel : Text) (size m : ℕ) (s : State R)
      → AtMost (attempts cfg) (sync_changed env provider cfg path primary rel size m) s
  unfolding sync_changed
  sync_changed-AtMost path primary rel size m s = bind-AtMost _ _ _ s refl λ e.
      elim (Bool-cases (has_mtime m e && is_known (lookup s.path_cache rel))) [
        | inl fresh ↦ rw fresh (omega arith)
        | inr changed ↦ rw changed (
            bind-AtMost _ _ _ s refl λ stop. elim (Bool-cases stop) [
              | inl stopped ↦ rw stopped (omega arith)
              | inr going ↦ rw going (sync_content-AtMost path primary rel size m _)
            ])
      ]

  -- If one upload raises a count of the provider by at most one, a synchronisation of a file, whatever
  -- the provider answers, raises it by at most the attempts that the configuration allows, and by at
  -- most one where it allows none.
  pub sync_file-asked :
      (path : FilePath) (s : State R)
      → asked (sync_file env provider cfg path s).1.remote
        ≤ asked s.remote + max 1 cfg.retry.max_attempts
  unfolding sync_file
  sync_file-asked path s = bind-AtMost (attempts cfg) _ _ s refl λ meta.
      elim (Bool-cases (is_ignored env path meta.is_dir || not meta.is_file)) [
        | inl skip ↦ rw skip (omega arith)
        | inr go ↦ rw go (
            bind-AtMost (attempts cfg) _ _ _ refl λ metadata.
              elim (Bool-cases (metadata.len == 0)) [
                | inl nothing ↦ rw nothing (omega arith)
                | inr some_bytes ↦ rw some_bytes (
                    bind-AtMost (attempts cfg) _ _ _ refl λ primary.
                      bind-AtMost (attempts cfg) _ _ _ refl λ rel.
                        bind-AtMost (attempts cfg) _ _ _ refl
                          λ m. sync_changed-AtMost path primary rel metadata.len m _)
              ])
      ]
