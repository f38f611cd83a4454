-- ===== src/Paths/Examples.antt =====
-- Paths read from concrete texts.
use syncgdrive.Base.{codes, true, false, ◌≡◌, refl, arith, [], ◌∷◌}
use syncgdrive.Paths.{FilePath, is_part, parse, render, join, strip_prefix}
use syncgdrive.Paths.RoundTrip.{join-parse-render}

abbrev root : FilePath
root = record { absolute = true; parts = codes "home" ∷ [] }

abbrev rel : FilePath
rel = record { absolute = false; parts = codes "a" ∷ codes "b" ∷ [] }

abbrev file : FilePath
file = record { absolute = true; parts = codes "home" ∷ codes "a" ∷ codes "b" ∷ [] }

parse_home : parse (codes "//home/./a/b/") ≡ file
unfolding parse
parse_home = refl

join-parse-render_example : join root (parse (render rel)) ≡ file
unfolding strip_prefix is_part
join-parse-render_example =
    join-parse-render root file rel refl
      ((refl, (ground arith, tt)), ((refl, (ground arith, tt)), tt))
