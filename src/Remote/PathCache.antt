-- ===== src/Remote/PathCache.antt =====
-- src/remote/path_cache.rs: the map from relative paths to Drive identifiers. The lock makes each
-- method one atomic step on the map.
pub mod Laws
pub mod Ancestors
mod Examples
use syncgdrive.Base.{
  ℕ, zero, suc, Text, text_eq, starts_with, Bool, not, Option, none, some, List, [], ◌∷◌, ◌++◌,
  Dict, length, is_empty, true, false, if◌then◌else◌, get, put, remove, retain,
}
use syncgdrive.Paths.{FilePath, slash, split, is_part, init_parts, render}
use syncgdrive.Remote.{RemoteIndex, RemoteDir, RemoteFile}

pub record CacheEntry : Type 0 where
  pub drive_id : Text
  pub parent_id : Text

abbrev pub PathCache : Type 0
PathCache = Dict CacheEntry

unfoldable pub new : PathCache
new = []

unfoldable pub lookup : PathCache → Text → Option CacheEntry
unfolding get
lookup map relative_path = get map relative_path

unfoldable pub insert : PathCache → Text → Text → Text → PathCache
unfolding put
insert map relative_path drive_id parent_id =
    put map relative_path (record { drive_id = drive_id; parent_id = parent_id })

unfoldable pub insert_dirs : List RemoteDir → PathCache → PathCache
unfolding insert
insert_dirs [] map = map
insert_dirs (d ∷ ds) map = insert_dirs ds (insert map d.relative_path d.drive_id d.parent_id)

unfoldable pub insert_files : List RemoteFile → PathCache → PathCache
unfolding insert
insert_files [] map = map
insert_files (f ∷ fs) map = insert_files fs (insert map f.relative_path f.drive_id f.parent_id)

-- The map is cleared first, so what it held does not matter.
unfoldable pub rebuild_from_index : RemoteIndex → PathCache → PathCache
unfolding insert_dirs insert_files
rebuild_from_index index map = insert_files index.files (insert_dirs index.dirs [])

unfoldable pub remove_cascades : PathCache → Text → PathCache
unfolding remove retain starts_with
remove_cascades map relative_path =
    let prefix = relative_path ++ slash ∷ [] in
    retain (λ path. not (starts_with path prefix)) (remove map relative_path)

-- The pieces behind the first separator.
abbrev rest_of : List Text → List Text
rest_of [] = []
rest_of (s ∷ ss) = ss

-- A path by its pieces as they stand between the separators, the empty ones and the `.` included,
-- so that `to_string_lossy` gives the text back. An absolute path has the pieces behind its first
-- separator.
unfoldable pub raw : Text → FilePath
raw text =
    if is_empty text
    then record { absolute = false; parts = [] }
    else if starts_with text (slash ∷ [])
    then record { absolute = true; parts = rest_of (split text) }
    else record { absolute = false; parts = split text }

-- The pieces without those at the end that are no components.
unfoldable pub trim_end : List Text → List Text
trim_end [] = []
trim_end (s ∷ ss) =
    let rest = trim_end ss in
    elim rest [ [] ↦ if is_part s then s ∷ [] else [] | t ∷ ts ↦ s ∷ t ∷ ts ]

-- The first piece of a relative path is a component, be it `.`.
unfoldable pub trim_pieces : Bool → List Text → List Text
trim_pieces true ss = trim_end ss
trim_pieces false [] = []
trim_pieces false (s ∷ ss) = s ∷ trim_end ss

-- `Path::parent` on the text: the last component goes, with the separators around it.
unfoldable pub raw_parent : FilePath → Option FilePath
raw_parent p =
    let pieces = trim_pieces p.absolute p.parts in
    if is_empty pieces
    then none
    else some (record p { parts = trim_pieces p.absolute (init_parts pieces) })

-- The `while` loop over the parents. The fuel bounds their number.
unfoldable pub resolve_loop : ℕ → PathCache → Option FilePath → Option (Text × CacheEntry)
unfolding get render raw_parent
resolve_loop zero map current_path = none
resolve_loop (suc fuel) map none = none
resolve_loop (suc fuel) map (some p) =
    let p_str = render p in
    elim (get map p_str) [
      | some entry ↦ some (p_str, entry)
      | none ↦ resolve_loop fuel map (raw_parent p)
    ]

unfoldable pub resolve_deepest_known_parent : PathCache → Text → Option (Text × CacheEntry)
unfolding resolve_loop raw
resolve_deepest_known_parent map relative_path =
    let path = raw relative_path in resolve_loop (length path.parts) map (raw_parent path)
