-- ===== src/Engine/Scan.antt =====
-- src/engine/scan.rs: the state of a scan, the listings (phases 0 and 1), and the creation of the
-- missing directories (phase 2). The walk over the file system is a parameter. The log lines, the
-- desktop notifications and the counters that only they show are left out.
pub mod Compare
pub mod Queueing
pub mod Run
pub mod Directories
pub mod DryRun
pub mod Sending
mod Examples
use syncgdrive.Base.{
  ℕ, zero, suc, ◌+◌, ◌-◌, ◌%◌, Text, codes, is_empty, Bool, true, false, Option, none, some, List,
  [], ◌∷◌, ◌++◌, length, ◌==◌, if◌then◌else◌, Result, ok, err, Error, bail, or_context, Act, pure,
  fail, lift, gets, modify, when, ◌>>=◌, ◌>>◌,
}
use syncgdrive.Paths.{FilePath, slash, render, strip_prefix, file_name}
use syncgdrive.Config.{AppConfig, SyncPair}
use syncgdrive.Remote.{RemoteIndex}
use syncgdrive.Remote.PathCache.{PathCache, lookup, insert, insert_dirs, insert_files}
use syncgdrive.Engine.Progress.{show}
use syncgdrive.Engine.Status.{
  EngineStatus, scan_progress, remote_listing, local_listing, directories,
}
use syncgdrive.Engine.Tasks.{Channel}
use syncgdrive.Engine.Worker.{
  Environment, Provider, State, on_remote, retry, drive_id_of, is_ignored,
}

pub record ScanState (R : Type 0) : Type 0 where
  pub base : State R
  pub channel : Channel
  pub statuses : List EngineStatus

-- An entry of `walkdir`; a link is neither a directory nor a file.
pub record Entry : Type 0 where
  pub path : FilePath
  pub is_dir : Bool
  pub is_file : Bool

-- `WalkDir::new(root)` with `filter_entry`, without the entries that cannot be read.
abbrev pub Walk : Type 0
Walk = FilePath → (FilePath → Bool → Bool) → List Entry

abbrev pub interrupted_error : Error
interrupted_error = codes "shutdown: scan interrupted" ∷ []

module _ {R : Type 0} where
  abbrev pub on_base : {A : Type 0} → Act (State R) A → Act (ScanState R) A
  on_base m s = let (r, base) = m s.base in (r, record s { base = base })

  -- `let _ = status_tx.send(…)`
  abbrev pub report : EngineStatus → Act (ScanState R) (Unit {0})
  report status s = (ok tt, record s { statuses = s.statuses ++ status ∷ [] })

  abbrev pub with_cache : (PathCache → PathCache) → ScanState R → ScanState R
  with_cache f s = record s { base = record (s.base) { path_cache = f s.base.path_cache } }

  -- `if shutdown.is_cancelled() { bail!(…) }`
  unfoldable pub check_shutdown : Environment → Act (ScanState R) (Unit {0})
  check_shutdown env s =
      let s' = record s { base = record (s.base) { clock = s.base.clock + 1 } } in
      elim (env.cancelled s.base.clock) [ true ↦ (err interrupted_error, s') | false ↦ (ok tt, s') ]

  -- Phase 0: a listing that fails counts as an empty one.
  unfoldable pub remote_index : Provider R → Text → Act (ScanState R) RemoteIndex
  remote_index provider root_id s =
      let (r, s') = on_base (on_remote (provider.list_remote root_id)) s in
      elim r [ ok index ↦ (ok index, s') | err e ↦ (ok (record { files = []; dirs = [] }), s') ]

  -- The loops that fill the cache.
  unfoldable pub fill_cache : RemoteIndex → Act (ScanState R) (Unit {0})
  fill_cache index s =
      (ok tt, with_cache (λ cache. insert_files index.files (insert_dirs index.dirs cache)) s)

-- `file_name().map(…).unwrap_or_default()`
abbrev pub name_or_empty : FilePath → Text
name_or_empty path = elim (file_name path) [ none ↦ [] | some name ↦ name ]

-- `WalkDir`'s root is a directory, but not one to create.
abbrev pub is_below : FilePath → FilePath → Bool
is_below root path = elim (strip_prefix root path) [
  | none ↦ false
  | some rel ↦ elim (is_empty rel.parts) [ true ↦ false | false ↦ true ]
]

-- The directories and the files of the local listing.
pub record Listing : Type 0 where
  pub dirs : List FilePath
  pub files : List FilePath

unfoldable pub add_entry : FilePath → Entry → Listing → Listing
add_entry root entry found = elim entry.is_dir [
  | true ↦ elim (is_below root entry.path) [
    | true ↦ record found { dirs = found.dirs ++ entry.path ∷ [] }
    | false ↦ found
  ]
  | false ↦ elim entry.is_file [
    | true ↦ record found { files = found.files ++ entry.path ∷ [] }
    | false ↦ found
  ]
]

-- `replace('/', "_")`
unfoldable pub underscored : Text → Text
underscored [] = []
underscored (c ∷ s) = (if c == slash then b'_' else c) ∷ underscored s

module _ {R : Type 0} (env : Environment) where
  -- Phase 1: the loop over the entries, with their number so far.
  unfoldable pub list_local : FilePath → ℕ → List Entry → Listing → Act (ScanState R) Listing
  list_local root n [] found = pure found
  list_local root n (entry ∷ entries) found = check_shutdown env >>= λ _.
      when ((n + 1) % 100 == 0)
        (report (scan_progress local_listing (n + 1) 0 (show (n + 1) ++ codes " éléments indexés")))
      >>= λ _. list_local root (n + 1) entries (add_entry root entry found)

  module _ (provider : Provider R) (cfg : AppConfig) (dry_run : Bool) where
    -- The identifier of a directory that is created, or would be.
    unfoldable pub new_dir : Text → Text → Text → Act (ScanState R) Text
    new_dir rel parent_id part = elim dry_run [
      | true ↦ pure (codes "dry_run_dir_" ++ underscored rel)
      | false ↦
          on_base
            (retry env (cfg.retry.max_attempts - 1) (on_remote (provider.mkdir parent_id part)))
    ]

    -- The loop over the components of a directory: those that the cache lacks are created.
    unfoldable pub ensure_parts : List Text → Text → Text → Act (ScanState R) (Unit {0})
    ensure_parts [] current_rel current_parent = pure tt
    ensure_parts (part ∷ parts) current_rel current_parent =
        let rel = if is_empty current_rel then part else current_rel ++ slash ∷ part in
        gets (λ s. drive_id_of (lookup s.base.path_cache rel)) >>= λ known. elim known [
          | some id ↦ ensure_parts parts rel id
          | none ↦ new_dir rel current_parent part >>= λ id.
              modify (with_cache (λ cache. insert cache rel id current_parent)) >>= λ _.
              ensure_parts parts rel id
        ]

    -- One directory of phase 2.
    unfoldable pub ensure_dir : SyncPair → FilePath → Act (ScanState R) (Unit {0})
    ensure_dir primary rel =
        gets (λ s. drive_id_of (lookup s.base.path_cache (render rel))) >>= λ known. elim known [
          | some id ↦ pure tt
          | none ↦ ensure_parts rel.parts [] primary.remote_folder_id
        ]

    -- Phase 2: the loop over the directories, with the index of the next and their number.
    unfoldable pub create_dirs :
        SyncPair → FilePath → ℕ → ℕ → List FilePath → Act (ScanState R) (Unit {0})
    create_dirs primary root i total [] = pure tt
    create_dirs primary root i total (dir ∷ dirs) = check_shutdown env >>= λ _.
        lift (or_context (codes "prefix not found") (strip_prefix root dir)) >>= λ rel.
        report (scan_progress directories (i + 1) total (name_or_empty rel)) >>= λ _.
        ensure_dir primary rel >>= λ _. create_dirs primary root (i + 1) total dirs
