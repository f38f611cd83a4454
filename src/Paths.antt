-- ===== src/Paths.antt =====
-- `std::path` as the program uses it: a `Path` by its components. A text is read into components
-- as `Path::components` does: repeated and trailing separators count once, and `.` counts only at
-- the start of a relative path. `to_string_lossy` is the components joined again; the texts that
-- it is taken of are valid Unicode.
pub mod Prefix
pub mod RoundTrip
mod Examples
use syncgdrive.Base.{
  ℕ, Text, codes, text_eq, is_empty, starts_with, keep, Bool, true, false, not, ◌&&◌, Option, none,
  some, List, [], ◌∷◌, ◌++◌, ◌==◌, if◌then◌else◌,
}

pub record FilePath : Type 0 where
  pub absolute : Bool
  pub parts : List Text

abbrev pub slash : ℕ
slash = b'/'

abbrev pub dot : Text
dot = codes "."

abbrev cons_head : ℕ → List Text → List Text
cons_head c [] = (c ∷ []) ∷ []
cons_head c (w ∷ ws) = (c ∷ w) ∷ ws

-- `str::split('/')`: at least one piece.
unfoldable pub split : Text → List Text
split [] = [] ∷ []
split (c ∷ s) = let rest = split s in if c == slash then [] ∷ rest else cons_head c rest

unfoldable pub is_part : Text → Bool
unfolding text_eq
is_part s = not (is_empty s) && not (text_eq s dot)

-- The pieces that are components: a `.` only in front.
abbrev pub components : List Text → List Text
components [] = []
components (s ∷ ss) = if text_eq s dot then s ∷ keep is_part ss else keep is_part (s ∷ ss)

-- `Path::new`
unfoldable pub parse : Text → FilePath
unfolding split is_part keep starts_with text_eq
parse s =
    if starts_with s (slash ∷ [])
    then record { absolute = true; parts = keep is_part (split s) }
    else record { absolute = false; parts = components (split s) }

-- `[String]::join("/")`
unfoldable pub join_slash : List Text → Text
join_slash [] = []
join_slash (s ∷ []) = s
join_slash (s ∷ t ∷ ts) = s ++ slash ∷ join_slash (t ∷ ts)

-- `Path::to_string_lossy`
unfoldable pub render : FilePath → Text
unfolding join_slash
render p = if p.absolute then slash ∷ join_slash p.parts else join_slash p.parts

-- `Path::join`: an absolute path replaces the first.
unfoldable pub join : FilePath → FilePath → FilePath
unfolding is_part keep
join base p =
    if p.absolute
    then p
    else record { absolute = base.absolute; parts = base.parts ++ keep is_part p.parts }

unfoldable pub strip_parts : List Text → List Text → Option (List Text)
unfolding text_eq
strip_parts [] ps = some ps
strip_parts (r ∷ rs) [] = none
strip_parts (r ∷ rs) (p ∷ ps) = let rest = strip_parts rs ps in if text_eq r p then rest else none

abbrev pub same_root : Bool → Bool → Bool
same_root true b = b
same_root false b = not b

-- `path.strip_prefix(root)`: the root first.
unfoldable pub strip_prefix : FilePath → FilePath → Option FilePath
unfolding strip_parts
strip_prefix root p =
    if same_root root.absolute p.absolute
    then (elim (strip_parts root.parts p.parts) [
      | none ↦ none
      | some rest ↦ some (record { absolute = false; parts = rest })
    ])
    else none

abbrev pub init_parts : List Text → List Text
init_parts [] = []
init_parts (s ∷ []) = []
init_parts (s ∷ t ∷ ts) = s ∷ init_parts (t ∷ ts)

abbrev last_part : List Text → Option Text
last_part [] = none
last_part (s ∷ []) = some s
last_part (s ∷ t ∷ ts) = last_part (t ∷ ts)

-- `Path::parent`
unfoldable pub parent : FilePath → Option FilePath
parent p = if is_empty p.parts then none else some (record p { parts = init_parts p.parts })

-- `Path::file_name`: none for a path that ends in `..` or is `.`.
unfoldable pub file_name : FilePath → Option Text
unfolding text_eq
file_name p = elim (last_part p.parts) [
  | none ↦ none
  | some s ↦ if text_eq s (codes "..") then none else if text_eq s dot then none else some s
]
