-- ===== src/Remote/PathCache/Laws.antt =====
-- src/remote/path_cache.rs: what a lookup finds after each operation.
use syncgdrive.Base.{
  Text, text_eq, starts_with, not, ◌||◌, Option, none, some, List, [], ◌∷◌, ◌++◌, arith, ◌≡◌, refl,
  remove, get-put, get-remove, get-retain, if◌then◌else◌,
}
use syncgdrive.Paths.{slash}
use syncgdrive.Remote.{RemoteDir, RemoteFile}
use syncgdrive.Remote.PathCache.{
  PathCache, CacheEntry, lookup, insert, insert_dirs, insert_files, remove_cascades,
}

pub lookup-insert :
    (map : PathCache) (k drive parent j : Text)
    → lookup (insert map k drive parent) j ≡ (
        if text_eq k j
        then some (record { drive_id = drive; parent_id = parent })
        else lookup map j)
unfolding lookup insert
lookup-insert map k drive parent j = get-put map k _ j

-- After a cascade the path is gone with all that lies below it, and every other entry stays.
pub lookup-remove_cascades :
    (map : PathCache) (path j : Text)
    → lookup (remove_cascades map path) j
      ≡ (if text_eq path j || starts_with j (path ++ slash ∷ []) then none else lookup map j)
unfolding lookup remove_cascades
lookup-remove_cascades map path j = ground (
  arith,
  get-retain (λ p. not (starts_with p (path ++ slash ∷ []))) (remove map path) j,
  get-remove map path j,
)

-- The entry that a list of directories or files gives a path: the last one that names it.
abbrev pub last_dir : List RemoteDir → Text → Option CacheEntry → Option CacheEntry
last_dir [] k old = old
last_dir (d ∷ ds) k old = last_dir ds k (
    if text_eq d.relative_path k
    then some (record { drive_id = d.drive_id; parent_id = d.parent_id })
    else old)

abbrev pub last_file : List RemoteFile → Text → Option CacheEntry → Option CacheEntry
last_file [] k old = old
last_file (f ∷ fs) k old = last_file fs k (
    if text_eq f.relative_path k
    then some (record { drive_id = f.drive_id; parent_id = f.parent_id })
    else old)

pub lookup-insert_dirs :
    (ds : List RemoteDir) (map : PathCache) (k : Text)
    → lookup (insert_dirs ds map) k ≡ last_dir ds k (lookup map k)
unfolding insert_dirs
lookup-insert_dirs [] map k = refl
lookup-insert_dirs (d ∷ ds) map k =
    rw (lookup-insert_dirs ds _ k, lookup-insert map d.relative_path d.drive_id d.parent_id k)

pub lookup-insert_files :
    (fs : List RemoteFile) (map : PathCache) (k : Text)
    → lookup (insert_files fs map) k ≡ last_file fs k (lookup map k)
unfolding insert_files
lookup-insert_files [] map k = refl
lookup-insert_files (f ∷ fs) map k =
    rw (lookup-insert_files fs _ k, lookup-insert map f.relative_path f.drive_id f.parent_id k)
