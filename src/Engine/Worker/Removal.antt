-- ===== src/Engine/Worker/Removal.antt =====
-- src/engine/worker.rs: `delete` and `rename` of a known file.
use syncgdrive.Base.{
  ℕ, ◌≡◌, Text, text_eq, starts_with, ◌||◌, Option, none, some, Error, Result, ok, err, [], ◌∷◌,
  ◌++◌, if◌then◌else◌,
}
use syncgdrive.Paths.{slash}
use syncgdrive.Db.{FileRow, get_file}
use syncgdrive.Db.Files.{entry}
use syncgdrive.Remote.PathCache.{PathCache, CacheEntry, lookup}
use syncgdrive.Engine.Worker.{Environment, State, is_known}
use syncgdrive.Engine.Worker.Attempts.{Same}

-- The entry that a path has after a cascade below `rel`.
abbrev pub after_cascade : Text → PathCache → Text → Option CacheEntry
after_cascade rel cache j =
    if text_eq rel j || starts_with j (rel ++ slash ∷ []) then none else lookup cache j

module _ {R : Type 0} (env : Environment) where
  -- The cache after the removal of a path from it, if it was there.
  abbrev pub IsCascaded : Text → State R → State R → Type 0
  IsCascaded rel s s' =
      (j : Text)
      → lookup s'.path_cache j ≡ (
          if is_known (lookup s.path_cache rel)
          then after_cascade rel s.path_cache j
          else lookup s.path_cache j)

  -- The cache after the move of a file.
  abbrev pub IsRelocated : Text → Text → Text → Text → State R → State R → Type 0
  IsRelocated from to file_id parent_id s s' =
      (j : Text)
      → lookup s'.path_cache j ≡ (
          if text_eq to j
          then some (record { drive_id = file_id; parent_id = parent_id })
          else after_cascade from s.path_cache j)

  -- What the removal of a path does. An error leaves the cache and the index alone, or, where it is
  -- the index that fails, the index alone.
  pub data Removed (rel : Text) (s : State R) : Result (Unit {0}) × State R → Type 0 where
    kept : (e : Error) (s' : State R) → Same s s' → Removed rel s (err e, s')
    removed :
        (s' : State R)
        → ((j : Text) → get_file j s'.db ≡ (if text_eq rel j then ok none else get_file j s.db))
        → IsCascaded rel s s'
        → Removed rel s (ok tt, s')
    unrecorded :
        (n : ℕ) (e : Error) (s' : State R)
        → env.db_fault n ≡ some e
        → s'.db ≡ s.db
        → IsCascaded rel s s'
        → Removed rel s (err e, s')

  -- What the move of a known file does.
  pub data Moved (from to file_id : Text) (row : FileRow) (s : State R)
      : Result (Unit {0}) × State R → Type 0 where
    kept : (e : Error) (s' : State R) → Same s s' → Moved from to file_id row s (err e, s')
    moved :
        (parent_id : Text) (s' : State R)
        → ((j : Text)
            → get_file j s'.db ≡ (
                if text_eq to j
                then ok (entry j (some row))
                else if text_eq from j
                then ok none
                else get_file j s.db))
        → IsRelocated from to file_id parent_id s s'
        → Moved from to file_id row s (ok tt, s')
    unrecorded :
        (parent_id : Text) (n : ℕ) (e : Error) (s' : State R)
        → env.db_fault n ≡ some e
        → s'.db ≡ s.db
        → IsRelocated from to file_id parent_id s s'
        → Moved from to file_id row s (err e, s')
