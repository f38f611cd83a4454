-- ===== src/PathDisplay.antt =====
-- src/utils/path_display.rs: the short form of a path for the windows and the tooltips.
pub mod Whole
mod Examples
use syncgdrive.Base.{
  ℕ, Text, codes, is_empty, Bool, true, false, ◌&&◌, List, [], ◌∷◌, ◌++◌, length, leb, ◌==◌,
  if◌then◌else◌,
}
use syncgdrive.Paths.{slash, split, join_slash, init_parts}

-- `ends_with('/')`
unfoldable pub ends_with_slash : Text → Bool
ends_with_slash [] = false
ends_with_slash (c ∷ []) = c == slash
ends_with_slash (c ∷ d ∷ s) = ends_with_slash (d ∷ s)

-- `trim_end_matches('/')`
unfoldable pub trim_end : Text → Text
trim_end [] = []
trim_end (c ∷ s) = let rest = trim_end s in if is_empty rest && c == slash then [] else c ∷ rest

-- The last of the parts; `unwrap` of none cannot happen.
unfoldable pub last_or_empty : List Text → Text
last_or_empty [] = []
last_or_empty (s ∷ []) = s
last_or_empty (s ∷ t ∷ ts) = last_or_empty (t ∷ ts)

abbrev pub head_or_empty : List Text → Text
head_or_empty [] = []
head_or_empty (s ∷ ss) = s

-- A folder keeps its separator.
abbrev pub mark : Bool → Text → Text
mark is_dir name = if is_dir then name ++ slash ∷ [] else name

-- More than three folders are the first, dots, and the last two.
unfoldable pub folder_str : List Text → Text
folder_str folders =
    if leb 4 (length folders)
    then head_or_empty folders
      ++ codes "/.../"
      ++ last_or_empty (init_parts folders)
      ++ slash ∷ last_or_empty folders
      ++ slash ∷ []
    else join_slash folders ++ slash ∷ []

unfoldable pub display_parts : Bool → List Text → Text × Text
display_parts is_dir [] = ([], [])
display_parts is_dir (p ∷ []) = ([], mark is_dir p)
display_parts is_dir (p ∷ q ∷ ps) =
    (folder_str (init_parts (p ∷ q ∷ ps)), mark is_dir (last_or_empty (p ∷ q ∷ ps)))

unfoldable pub split_path_display : Text → Text × Text
split_path_display path =
    if is_empty path then ([], []) else display_parts (ends_with_slash path) (split (trim_end path))

unfoldable pub format_path_tooltip : Text → Text
format_path_tooltip path =
    let (folders, file) = split_path_display path in
    let icon = if ends_with_slash file then codes "📁" else codes "📄" in
    if is_empty path
    then []
    else if is_empty folders
    then icon ++ codes " " ++ file
    else codes "📂 " ++ folders ++ codes "\n" ++ icon ++ codes " " ++ file
