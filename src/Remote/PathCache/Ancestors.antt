-- ===== src/Remote/PathCache/Ancestors.antt =====
-- src/remote/path_cache.rs: `resolve_deepest_known_parent` and the ancestors of a path.
use syncgdrive.Base.{
  ℕ, zero, suc, ◌+◌, is_empty, true, false, Bool-cases, inl, inr, ◌≤◌, ◌<◌, Text, length, Bool,
  Option, none, some, List, [], ◌∷◌, arith, ◌≡◌, refl, ap,
}
use syncgdrive.Paths.{FilePath, init_parts, render}
use syncgdrive.Remote.PathCache.{
  PathCache, CacheEntry, raw, trim_end, trim_pieces, raw_parent, lookup, resolve_loop,
  resolve_deepest_known_parent,
}

-- The path itself, its parent, the parent's parent, and so on.
abbrev pub nth_parent : ℕ → Option FilePath → Option FilePath
nth_parent zero p = p
nth_parent (suc n) none = none
nth_parent (suc n) (some p) = nth_parent n (raw_parent p)

-- No path among the first `n` of a chain of parents is in the cache.
abbrev pub UnknownBelow : PathCache → Option FilePath → ℕ → Type 0
UnknownBelow map start n =
    (m : ℕ) (q : FilePath) → m < n → nth_parent m start ≡ some q → lookup map (render q) ≡ none

-- What the answer of a search from `start` upwards says.
abbrev pub IsDeepest : PathCache → Option FilePath → Option (Text × CacheEntry) → Type 0
IsDeepest map start none =
    (m : ℕ) (q : FilePath) → nth_parent m start ≡ some q → lookup map (render q) ≡ none
IsDeepest map start (some (text, entry)) =
    (n : ℕ) × (p : FilePath) × (nth_parent n start ≡ some p)
    × (render p ≡ text)
    × (lookup map text ≡ some entry)
    × UnknownBelow map start n

abbrev depth : Option FilePath → ℕ
depth none = 0
depth (some p) = suc (length p.parts)

length-init_parts : (s : Text) (ss : List Text) → length (init_parts (s ∷ ss)) ≡ length ss
length-init_parts s [] = refl
length-init_parts s (t ∷ ss) = ap suc (length-init_parts t ss)

trim_end-le : (ss : List Text) → length (trim_end ss) ≤ length ss
unfolding trim_end
trim_end-le [] = omega arith
trim_end-le (s ∷ ss) = ground (arith, trim_end-le ss)

trim_pieces-le : (b : Bool) (ss : List Text) → length (trim_pieces b ss) ≤ length ss
unfolding trim_pieces
trim_pieces-le true ss = trim_end-le ss
trim_pieces-le false [] = omega arith
trim_pieces-le false (s ∷ ss) = omega (arith, trim_end-le ss)

init_parts-lt : (ss : List Text) → is_empty ss ≡ false → length (init_parts ss) + 1 ≤ length ss
init_parts-lt [] h = absurd (ground (arith, h))
init_parts-lt (s ∷ ss) h = omega (arith, length-init_parts s ss)

-- Each parent has fewer pieces.
depth-parent : (p : FilePath) → depth (raw_parent p) ≤ length p.parts
unfolding raw_parent
depth-parent p =
    let pieces = trim_pieces p.absolute p.parts in
    elim (Bool-cases (is_empty pieces)) [
      | inl root ↦ rw (raw_parent, root) (omega arith)
      | inr below ↦
          rw (raw_parent, below)
            (omega (
              arith,
              trim_pieces-le p.absolute p.parts,
              trim_pieces-le p.absolute (init_parts pieces),
              init_parts-lt pieces below,
            ))
    ]

none-has_no_parent : (m : ℕ) (q : FilePath) → nth_parent m none ≡ some q → ⊥
none-has_no_parent zero q h = cc
none-has_no_parent (suc m) q h = cc

unknown_above :
    (map : PathCache) (p : FilePath) (n : ℕ)
    → lookup map (render p) ≡ none
    → UnknownBelow map (raw_parent p) n
    → UnknownBelow map (some p) (suc n)
unknown_above map p n missing h zero q lt e = cc
unknown_above map p n missing h (suc m) q lt e = h m q (omega arith) e

-- One pass of the loop, from what the lookup finds and what the rest of the loop answers.
pass-IsDeepest :
    (map : PathCache) (p : FilePath) (found : Option CacheEntry)
    → lookup map (render p) ≡ found
    → (rest : Option (Text × CacheEntry)) → IsDeepest map (raw_parent p) rest
    → IsDeepest map (some p) (elim found [ some entry ↦ some (render p, entry) | none ↦ rest ])
pass-IsDeepest map p (some entry) e rest h = (0, p, refl, refl, e, λ m q lt _. absurd (omega arith))
pass-IsDeepest map p none e none h =
    λ m q up. unknown_above map p (suc m) e (λ m' q' _ up'. h m' q' up') m q (omega arith) up
pass-IsDeepest map p none e (some (text, entry)) (n, q, up, same, found, unknown) =
    (suc n, q, up, same, found, unknown_above map p n e unknown)

resolve_loop-IsDeepest :
    (fuel : ℕ) (map : PathCache) (start : Option FilePath)
    → depth start ≤ fuel
    → IsDeepest map start (resolve_loop fuel map start)
unfolding resolve_loop lookup
resolve_loop-IsDeepest zero map none h = λ m q e. absurd (none-has_no_parent m q e)
resolve_loop-IsDeepest zero map (some p) h = absurd (omega arith)
resolve_loop-IsDeepest (suc fuel) map none h = λ m q e. absurd (none-has_no_parent m q e)
resolve_loop-IsDeepest (suc fuel) map (some p) h =
    pass-IsDeepest map p (lookup map (render p)) refl (resolve_loop fuel map (raw_parent p))
      (resolve_loop-IsDeepest fuel map (raw_parent p) (omega (arith, depth-parent p)))

-- The answer is the nearest ancestor of the path whose text, as it stands in the path, the cache
-- knows; without an answer the cache knows none of its ancestors.
pub resolve_deepest_known_parent-IsDeepest :
    (map : PathCache) (relative_path : Text)
    → IsDeepest map
        (raw_parent (raw relative_path))
        (resolve_deepest_known_parent map relative_path)
unfolding resolve_deepest_known_parent
resolve_deepest_known_parent-IsDeepest map relative_path =
    resolve_loop-IsDeepest (length (raw relative_path).parts) map (raw_parent (raw relative_path))
      (omega (arith, depth-parent (raw relative_path)))
