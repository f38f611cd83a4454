-- ===== src/Paths/RoundTrip.antt =====
-- A relative path is found again in its text.
use syncgdrive.Base.{
  Text, text_eq, starts_with, true, false, some, List, [], ◌∷◌, ◌++◌, All, arith, ◌≡◌, ◌≢◌, refl,
  ap, sym, ◌∙◌,
}
use syncgdrive.Paths.{
  FilePath, slash, dot, split, is_part, parse, join_slash, render, join, strip_prefix,
}
use syncgdrive.Paths.Prefix.{AreParts, keep_parts, join-strip_prefix, strip_prefix-absolute}

-- A component as a file system has it: a part with no separator in it.
abbrev pub IsName : Text → Type 0
IsName s = (is_part s ≡ true) × All (λ c. c ≢ slash) s

abbrev pub AreNames : List Text → Type 0
AreNames ss = All IsName ss

pub AreNames-AreParts : (ss : List Text) → AreNames ss → AreParts ss
AreNames-AreParts [] h = tt
AreNames-AreParts (s ∷ ss) (p, ps) = (p.0, AreNames-AreParts ss ps)

split_last : (s : Text) → All (λ c. c ≢ slash) s → split s ≡ s ∷ []
unfolding split
split_last [] h = refl
split_last (c ∷ s) (n, h) = ground (arith, split_last s h)

split-append : (s t : Text) → All (λ c. c ≢ slash) s → split (s ++ slash ∷ t) ≡ s ∷ split t
unfolding split
split-append [] t h = refl
split-append (c ∷ s) t (n, h) = ground (arith, split-append s t h)

split-join_slash :
    (s : Text) (ss : List Text) → AreNames (s ∷ ss) → split (join_slash (s ∷ ss)) ≡ s ∷ ss
unfolding join_slash
split-join_slash s [] h = split_last s h.0.1
split-join_slash s (t ∷ ts) (n, h) =
    split-append s (join_slash (t ∷ ts)) n.1 ∙ ap (λ ws. s ∷ ws) (split-join_slash t ts h)

not_dot : (s : Text) → is_part s ≡ true → text_eq s dot ≡ false
unfolding is_part
not_dot s h = ground arith

no_slash_first :
    (s : Text) (ss : List Text) → IsName s → starts_with (join_slash (s ∷ ss)) (slash ∷ []) ≡ false
unfolding join_slash starts_with is_part
no_slash_first [] ss h = ground arith
no_slash_first (c ∷ s) [] h = ground arith
no_slash_first (c ∷ s) (t ∷ ts) h = ground arith

-- Reading the text of a relative path gives the path back.
pub parse-render :
    (ss : List Text)
    → AreNames ss
    → parse (render (record { absolute = false; parts = ss }))
      ≡ record { absolute = false; parts = ss }
unfolding parse render
parse-render [] h = refl
parse-render (s ∷ ss) h =
    rw (no_slash_first s ss h.0, split-join_slash s ss h, not_dot s h.0.0)
      (ground (arith, keep_parts (s ∷ ss) (AreNames-AreParts (s ∷ ss) h)))

-- What is stored of a path below the root leads back to the path.
pub join-parse-render :
    (root p rel : FilePath)
    → strip_prefix root p ≡ some rel
    → AreNames rel.parts
    → join root (parse (render rel)) ≡ p
join-parse-render root p rel h names =
    let e : rel ≡ record { absolute = false; parts = rel.parts } =
      λ i. record { absolute = (strip_prefix-absolute root p rel h).0 i; parts = rel.parts } in
    ap (λ r. join root (parse (render r))) e
    ∙ ap (join root) (parse-render rel.parts names ∙ sym e)
    ∙ join-strip_prefix root p rel h (AreNames-AreParts rel.parts names)
