-- ===== src/Engine/Worker.antt =====
-- src/engine/worker.rs, its surroundings, with `retry` of src/engine/scan.rs, src/engine/integrity.rs and
-- `is_ignored` of src/ignore.rs. The file system, the MD5 digest, the glob set, the shutdown token
-- and the remote provider are parameters. What lies outside may change between two looks at it:
-- each look reads the clock and moves it on. The log lines and the delays are left out.
pub mod Sync
pub mod Tasks
pub mod Outcome
pub mod Attempts
pub mod Removal
pub mod Sends
mod Examples
use syncgdrive.Base.{
  ℕ, zero, suc, ◌+◌, ◌-◌, Text, codes, text_eq, is_empty, Bool, true, false, not, ◌&&◌, ◌||◌,
  Option, none, some, List, [], ◌∷◌, ◌++◌, ◌==◌, Result, ok, err, Error, bail, context, or_context,
  Act, pure, fail, lift, gets, ◌>>=◌, ◌>>◌,
}
use syncgdrive.Paths.{FilePath, slash, parse, render, parent, file_name, strip_prefix}
use syncgdrive.Config.{AppConfig, SyncPair, get_primary_pair}
use syncgdrive.Db.{Database, FileEntry, get_file, upsert, delete_file, rename_file}
use syncgdrive.Remote.{UploadResult, RemoteIndex, HealthStatus}
use syncgdrive.Remote.PathCache.{PathCache, CacheEntry, lookup, insert, remove_cascades}
use syncgdrive.Engine.Progress.{ProgressTracker, set_current_file, show}
use syncgdrive.Engine.Tasks.{Task}

pub record Stat : Type 0 where
  pub is_dir : Bool
  pub is_file : Bool
  pub len : ℕ
  -- `modified()?.duration_since(UNIX_EPOCH)?.as_secs()`
  pub modified : Result ℕ

pub record Environment : Type 0 where
  pub cancelled : ℕ → Bool
  pub stat : ℕ → FilePath → Result Stat
  pub read : ℕ → FilePath → Result (List ℕ)
  pub md5 : List ℕ → Text
  pub is_match : Text → Bool
  -- The error of a poisoned lock or of SQLite, met by a call that changes a row.
  pub db_fault : ℕ → Option Error

-- `RemoteProvider`: the methods that the engine calls. An upload reports to the tracker.
pub record Provider (R : Type 0) : Type 0 where
  pub upload : FilePath → Text → Text → Option Text → Act (R × ProgressTracker) UploadResult
  pub delete : Text → Act R (Unit {0})
  pub rename : Text → Option Text → Option Text → Act R (Unit {0})
  pub list_remote : Text → Act R RemoteIndex
  pub mkdir : Text → Text → Act R Text
  pub check_health : Act R HealthStatus
  pub refresh_auth : Act R (Unit {0})

pub record State (R : Type 0) : Type 0 where
  pub remote : R
  pub tracker : ProgressTracker
  pub path_cache : PathCache
  pub db : Database
  pub clock : ℕ

pub data IntegrityResult : Type 0 where
  intact : IntegrityResult
  mismatch : Text → Text → IntegrityResult

module _ {R A : Type 0} where
  -- A look at what lies outside.
  abbrev pub observe : (ℕ → Result A) → Act (State R) A
  observe f s = (f s.clock, record s { clock = s.clock + 1 })

  abbrev pub ask_db : (Database → Result A) → Act (State R) A
  ask_db f s = (f s.db, s)

  abbrev pub on_db : Act Database A → Act (State R) A
  on_db m s = let (r, db) = m s.db in (r, record s { db = db })

  -- A method of the database that a fault may befall.
  abbrev pub on_db_at : (ℕ → Option Error) → (Option Error → Act Database A) → Act (State R) A
  on_db_at fault m s =
      let (r, db) = m (fault s.clock) s.db in (r, record s { db = db; clock = s.clock + 1 })

  abbrev pub on_remote : Act R A → Act (State R) A
  on_remote m s = let (r, remote) = m s.remote in (r, record s { remote = remote })

  abbrev pub on_transfer : Act (R × ProgressTracker) A → Act (State R) A
  on_transfer m s =
      let (r, (remote, tracker)) = m (s.remote, s.tracker) in
      (r, record s { remote = remote; tracker = tracker })

-- `Option::map(|e| e.drive_id)`
abbrev pub drive_id_of : Option CacheEntry → Option Text
drive_id_of none = none
drive_id_of (some e) = some e.drive_id

abbrev pub is_known : Option CacheEntry → Bool
is_known none = false
is_known (some e) = true

abbrev pub is_indexed : Option FileEntry → Bool
is_indexed none = false
is_indexed (some e) = true

-- The text of an error: the outermost message.
abbrev pub message : Error → Text
message [] = []
message (m ∷ ms) = m

abbrev pub render_or_empty : Option FilePath → Text
render_or_empty none = []
render_or_empty (some p) = render p

-- `strip_prefix`, or an error that names both paths.
unfoldable pub rel_str : FilePath → FilePath → Result Text
rel_str root path = elim (strip_prefix root path) [
  | none ↦ bail (render path ++ codes " not under " ++ render root)
  | some rel ↦ ok (render rel)
]

-- `unwrap_or_default`
abbrev pub or_default : Result Text → Text
or_default (ok t) = t
or_default (err e) = []

unfoldable pub parent_rel_str : FilePath → FilePath → Text
parent_rel_str root path = elim (parent path) [
  | none ↦ []
  | some p ↦ render_or_empty (strip_prefix root p)
]

abbrev pub has_mtime : ℕ → Option FileEntry → Bool
has_mtime m none = false
has_mtime m (some e) = e.mtime == m

abbrev pub has_hash : Text → Option FileEntry → Bool
has_hash h none = false
has_hash h (some e) = text_eq e.hash h

module _ (env : Environment) where
  unfoldable pub is_ignored : FilePath → Bool → Bool
  is_ignored path is_directory =
      env.is_match (render path) || (is_directory && env.is_match (render path ++ slash ∷ []))

  -- `path.is_dir()`, `path.is_file()`: false where there is nothing to look at.
  abbrev pub is_dir_at : FilePath → ℕ → Bool
  is_dir_at path now = elim (env.stat now path) [ ok m ↦ m.is_dir | err e ↦ false ]

  abbrev pub is_file_at : FilePath → ℕ → Bool
  is_file_at path now = elim (env.stat now path) [ ok m ↦ m.is_file | err e ↦ false ]

  abbrev pub mtime : FilePath → ℕ → Result ℕ
  mtime path now = elim (context (codes "stat") (env.stat now path)) [
    | ok m ↦ m.modified
    | err e ↦ err e
  ]

  -- `compute_hash`
  unfoldable pub compute_hash : FilePath → ℕ → Result Text
  compute_hash path now = elim (env.read now path) [ ok bytes ↦ ok (env.md5 bytes) | err e ↦ err e ]

  unfoldable pub hash_file : FilePath → ℕ → Result Text
  hash_file path now = elim (context (codes "read") (env.read now path)) [
    | ok bytes ↦ ok (env.md5 bytes)
    | err e ↦ err e
  ]

  unfoldable pub verify_upload : FilePath → UploadResult → ℕ → Result IntegrityResult
  verify_upload path upload_result now = elim (compute_hash path now) [
    | err e ↦ err e
    | ok local_hash ↦ elim (text_eq local_hash upload_result.md5_checksum) [
      | true ↦ ok intact
      | false ↦ ok (mismatch local_hash upload_result.md5_checksum)
    ]
  ]

abbrev pub cancelled_error : Error
cancelled_error = codes "Annulé" ∷ []

abbrev pub paused_error : Error
paused_error = codes "Annulé proprement pendant le retry" ∷ []

abbrev pub mismatch_error : ℕ → Error
mismatch_error max_attempts =
    (codes "mismatch md5 détecté post-upload après " ++ show max_attempts ++ codes " essais") ∷ []

abbrev pub upload_error : Error → Error
upload_error e = (codes "upload a échoué: " ++ message e) ∷ []

module _ {R : Type 0} (env : Environment) where
  -- `shutdown.is_cancelled()`; also the race of a pause with the token.
  abbrev pub is_cancelled : Act (State R) Bool
  is_cancelled = observe λ now. ok (env.cancelled now)

  -- One pass of the loop of `retry`; `again` is what follows a failure.
  abbrev pub retry_once :
      {A : Type 0} → Act (State R) A → (Error → Act (State R) A) → Act (State R) A
  retry_once f again = is_cancelled >>= λ stop. elim stop [
    | true ↦ fail cancelled_error
    | false ↦ λ s. let (r, s') = f s in elim r [ ok a ↦ (ok a, s') | err e ↦ again e s' ]
  ]

  -- The number counts the passes left, `max_attempts - attempt`: at 0 a failure is final.
  unfoldable pub retry : {A : Type 0} → ℕ → Act (State R) A → Act (State R) A
  retry zero f = retry_once f (λ e. fail e)
  retry (suc left) f =
      retry_once f (λ e.
        is_cancelled >>= λ stop. elim stop [ true ↦ fail paused_error | false ↦ retry left f ])
