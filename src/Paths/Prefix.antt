-- ===== src/Paths/Prefix.antt =====
-- `Path::strip_prefix` and `Path::join` undo one another.
use syncgdrive.Base.{
  Text, text_eq_iff, keep, true, false, some, List, [], ◌∷◌, ◌++◌, All, arith, ◌≡◌, refl,
}
use syncgdrive.Paths.{FilePath, is_part, join, strip_parts, strip_prefix}

-- Every component is a name or `..`.
abbrev pub AreParts : List Text → Type 0
AreParts ss = All (λ s. is_part s ≡ true) ss

pub keep_parts : (ss : List Text) → AreParts ss → keep is_part ss ≡ ss
unfolding keep
keep_parts [] h = refl
keep_parts (s ∷ ss) (p, ps) = ground (arith, keep_parts ss ps)

pub strip_parts-append : (rs ps : List Text) → strip_parts rs (rs ++ ps) ≡ some ps
unfolding strip_parts
strip_parts-append [] ps = refl
strip_parts-append (r ∷ rs) ps = ground (arith, text_eq_iff r r, strip_parts-append rs ps)

pub append-strip_parts : (rs ps rest : List Text) → strip_parts rs ps ≡ some rest → ps ≡ rs ++ rest
unfolding strip_parts
append-strip_parts [] ps rest h = ground arith
append-strip_parts (r ∷ rs) [] rest h = ground arith
append-strip_parts (r ∷ rs) (p ∷ ps) rest h =
    ground (arith, text_eq_iff r p, append-strip_parts rs ps rest)

pub strip_prefix-absolute :
    (root p rel : FilePath)
    → strip_prefix root p ≡ some rel
    → (rel.absolute ≡ false) × (p.absolute ≡ root.absolute) × (p.parts ≡ root.parts ++ rel.parts)
unfolding strip_prefix
strip_prefix-absolute root p rel h = ground (arith, append-strip_parts root.parts p.parts rel.parts)

-- A path below a root is the root joined with what the stripping leaves of it.
pub join-strip_prefix :
    (root p rel : FilePath)
    → strip_prefix root p ≡ some rel
    → AreParts rel.parts
    → join root rel ≡ p
unfolding join
join-strip_prefix root p rel h parts =
    ground (arith, strip_prefix-absolute root p rel h, keep_parts rel.parts parts)

pub strip_prefix-join :
    (root : FilePath) (ps : List Text)
    → AreParts ps
    → strip_prefix root (join root (record { absolute = false; parts = ps }))
      ≡ some (record { absolute = false; parts = ps })
unfolding strip_prefix join
strip_prefix-join root ps h = ground (arith, keep_parts ps h, strip_parts-append root.parts ps)
