-- ===== src/Remote/PathCache/Examples.antt =====
-- The cache at concrete contents.
use syncgdrive.Base.{
  codes, text_eq, starts_with, ◌||◌, ◌≡◌, refl, Text, Option, none, some, [], ◌∷◌, ◌++◌,
  if◌then◌else◌,
}
use syncgdrive.Paths.{FilePath, slash, split, is_part, render, join_slash}
use syncgdrive.Remote.{RemoteIndex}
use syncgdrive.Remote.PathCache.{
  PathCache, raw, raw_parent, trim_end, trim_pieces, lookup, remove_cascades,
  resolve_deepest_known_parent,
}
use syncgdrive.Remote.PathCache.Laws.{lookup-remove_cascades}
use syncgdrive.Remote.PathCache.Ancestors.{IsDeepest, resolve_deepest_known_parent-IsDeepest}

abbrev cache : PathCache
cache =
    (codes "docs", record { drive_id = codes "1"; parent_id = codes "0" })
    ∷ (codes "docs/a", record { drive_id = codes "2"; parent_id = codes "1" })
    ∷ (codes "docs2", record { drive_id = codes "3"; parent_id = codes "0" })
    ∷ []

abbrev index : RemoteIndex
index = record {
  files =
      record {
        relative_path = codes "d/f";
        drive_id = codes "5";
        parent_id = codes "4";
        md5 = [];
        size = 1;
        modified_time = 0;
      }
      ∷ [];
  dirs = record { relative_path = codes "d"; drive_id = codes "4"; parent_id = codes "0" } ∷ [];
}

lookup-remove_cascades_example : lookup (remove_cascades cache (codes "docs")) (codes "docs2") ≡ (
    if text_eq (codes "docs") (codes "docs2")
      || starts_with (codes "docs2") (codes "docs" ++ slash ∷ [])
    then none
    else lookup cache (codes "docs2"))
lookup-remove_cascades_example = lookup-remove_cascades cache (codes "docs") (codes "docs2")

resolve_deepest_known_parent_example :
    IsDeepest cache
      (raw_parent (raw (codes "docs/x/y")))
      (resolve_deepest_known_parent cache (codes "docs/x/y"))
resolve_deepest_known_parent_example =
    resolve_deepest_known_parent-IsDeepest cache (codes "docs/x/y")

abbrev text_of : Option FilePath → Option Text
text_of none = none
text_of (some p) = some (render p)

-- The parent keeps the text in front of it, without the separators behind.
raw_parent_doubled : text_of (raw_parent (raw (codes "a//b//c/"))) ≡ some (codes "a//b")
unfolding raw raw_parent trim_pieces trim_end split is_part text_eq starts_with render join_slash
raw_parent_doubled = refl

raw_parent_root : text_of (raw_parent (raw (codes "//a"))) ≡ some (codes "/")
unfolding raw raw_parent trim_pieces trim_end split is_part text_eq starts_with render join_slash
raw_parent_root = refl

raw_parent_single : text_of (raw_parent (raw (codes "./a"))) ≡ some (codes ".")
unfolding raw raw_parent trim_pieces trim_end split is_part text_eq starts_with render join_slash
raw_parent_single = refl
