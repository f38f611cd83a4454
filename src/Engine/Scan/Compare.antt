-- ===== src/Engine/Scan/Compare.antt =====
-- src/engine/scan.rs, phase 3: which files have to be sent.
use syncgdrive.Base.{
  ℕ, ◌+◌, ◌%◌, Text, text_eq, Bool, true, false, ◌||◌, none, some, List, [], ◌∷◌, ◌++◌, member, ltb,
  ◌==◌, ok, err, Act, pure, when, ◌>>=◌,
}
use syncgdrive.Paths.{FilePath, render, strip_prefix}
use syncgdrive.Db.{FileEntry, get_file, upsert}
use syncgdrive.Remote.PathCache.{lookup}
use syncgdrive.Engine.Status.{scan_progress, comparing}
use syncgdrive.Engine.Worker.{Environment, State, is_known, compute_hash}
use syncgdrive.Engine.Scan.{ScanState, on_base, report, check_shutdown, name_or_empty}

module _ {R : Type 0} where
  -- A look at what lies outside, whose failure is no error.
  abbrev pub look : {A : Type 0} → (ℕ → A) → Act (State R) A
  look f s = (ok (f s.clock), record s { clock = s.clock + 1 })

  -- `let _ = db.upsert(…)`
  abbrev pub store : FileEntry → State R → State R
  store e s = record s { db = (upsert e s.db).1 }

module _ (env : Environment) where
  -- `mtime_of`: 0 where there is no time.
  abbrev pub mtime_of : FilePath → ℕ → ℕ
  mtime_of path now = elim (env.stat now path) [
    | err e ↦ 0
    | ok m ↦ elim m.modified [ ok t ↦ t | err e ↦ 0 ]
  ]

  -- `metadata(p).map(|m| m.len()).unwrap_or(0)`
  abbrev pub len_of : FilePath → ℕ → ℕ
  len_of path now = elim (env.stat now path) [ ok m ↦ m.len | err e ↦ 0 ]

abbrev pub add_if : Bool → FilePath → List FilePath → List FilePath
add_if true path paths = paths ++ path ∷ []
add_if false path paths = paths

module _ {R : Type 0} (env : Environment) where
  -- A file that the index and the cache know: false where it is unchanged.
  unfoldable pub has_changed : FilePath → Text → Act (State R) Bool
  has_changed path rel s = elim (get_file rel s.db) [
    | err e ↦ (ok true, s)
    | ok found ↦ elim found [
      | none ↦ (ok true, s)
      | some entry ↦
          (look (mtime_of env path) >>= λ mtime. elim (mtime == entry.mtime) [
            | true ↦ pure false
            | false ↦ look (compute_hash env path) >>= λ hashed. elim hashed [
              | err e ↦ pure true
              | ok hash ↦ λ s'. elim (text_eq hash entry.hash) [
                | true ↦ (ok false, store (record { path = rel; hash = hash; mtime = mtime }) s')
                | false ↦ (ok true, s')
              ]
            ]
          ])
            s
    ]
  ]

  -- A file that the cache knows and the index does not: it is taken as it is.
  unfoldable pub adopt : FilePath → Text → Act (State R) Bool
  adopt path rel = look (compute_hash env path) >>= λ hashed. elim hashed [
    | err e ↦ pure false
    | ok hash ↦ look (mtime_of env path) >>= λ mtime.
        λ s. (ok false, store (record { path = rel; hash = hash; mtime = mtime }) s)
  ]

  -- True where the file has to be sent.
  unfoldable pub must_sync : List Text → FilePath → Text → Act (State R) Bool
  must_sync db_index path rel s = elim (is_known (lookup s.path_cache rel)) [
    | true ↦ elim (member rel db_index) [ true ↦ has_changed path rel s | false ↦ adopt path rel s ]
    | false ↦ (ok true, s)
  ]

  -- The loop over the local files, with the index of the next and their number.
  unfoldable pub compare_files :
      FilePath
      → List Text
      → ℕ
      → ℕ
      → List FilePath
      → List FilePath
      → Act (ScanState R) (List FilePath)
  compare_files root db_index i total [] to_sync = pure to_sync
  compare_files root db_index i total (path ∷ paths) to_sync = check_shutdown env >>= λ _.
      elim (strip_prefix root path) [
        | none ↦ compare_files root db_index (i + 1) total paths to_sync
        | some rel ↦
            when (i % 50 == 0 || i + 1 == total)
              (report (scan_progress comparing (i + 1) total (name_or_empty path)))
            >>= λ _. on_base (must_sync db_index path (render rel)) >>= λ sync.
                compare_files root db_index (i + 1) total paths (add_if sync path to_sync)
      ]

  -- `to_sync.retain(…)`: an empty file, or one that is gone, is not sent.
  unfoldable pub retain_filled : List FilePath → Act (State R) (List FilePath)
  retain_filled [] = pure []
  retain_filled (path ∷ paths) = look (len_of env path) >>= λ len. retain_filled paths >>= λ rest.
      elim (ltb 0 len) [ true ↦ pure (path ∷ rest) | false ↦ pure rest ]

  -- The bytes of the files to send.
  unfoldable pub sum_len : List FilePath → Act (State R) ℕ
  sum_len [] = pure 0
  sum_len (path ∷ paths) =
      look (len_of env path) >>= λ len. sum_len paths >>= λ rest. pure (len + rest)
