-- ===== src/Base/Lists.antt =====
-- Lists measured by native numbers, a Boolean filter, and a Boolean membership of texts.
use Prim.Native.Nat.{ℕ, suc, ◌+◌, ◌≤◌}
use mathlib.Core.Path.{◌≡◌, refl}
use mathlib.Core.Bool.{Bool, false, ◌&&◌, ◌||◌}
use mathlib.Core.List.{List, [], ◌∷◌, ◌++◌}
use native.Mathlib.Omega.{arith}
use syncgdrive.Base.Tests.{if◌then◌else◌}
use syncgdrive.Base.Texts.{Text, text_eq, text_eq_iff}

module _ {ℓ} {A : Type ℓ} where
  abbrev pub length : List A → ℕ
  length [] = 0
  length (x ∷ xs) = suc (length xs)

  pub length-append : (xs ys : List A) → length (xs ++ ys) ≡ length xs + length ys
  length-append [] ys = omega arith
  length-append (x ∷ xs) ys = omega (arith, length-append xs ys)

  -- `Iterator::filter`, `retain`
  unfoldable pub keep : (A → Bool) → List A → List A
  keep p [] = []
  keep p (x ∷ xs) = let rest = keep p xs in if p x then x ∷ rest else rest

  pub length-keep : (p : A → Bool) (xs : List A) → length (keep p xs) ≤ length xs
  unfolding keep
  length-keep p [] = omega arith
  length-keep p (x ∷ xs) = ground (arith, length-keep p xs)

  abbrev pub All {κ} : (A → Type κ) → List A → Type κ
  All P [] = Unit
  All P (x ∷ xs) = P x × All P xs

  pub All-weaken {κ} :
      (P Q : A → Type κ) → ((x : A) → P x → Q x) → (xs : List A) → All P xs → All Q xs
  All-weaken P Q f [] h = tt
  All-weaken P Q f (x ∷ xs) (p, ps) = (f x p, All-weaken P Q f xs ps)

-- `HashSet<String>::contains`
unfoldable pub member : Text → List Text → Bool
member k [] = false
member k (j ∷ js) = text_eq j k || member k js

pub member-append :
    (k : Text) (xs ys : List Text) → member k (xs ++ ys) ≡ (member k xs || member k ys)
unfolding member
member-append k [] ys = refl
member-append k (x ∷ xs) ys = ground (arith, member-append k xs ys)

pub member-keep :
    (k : Text) (p : Text → Bool) (xs : List Text) → member k (keep p xs) ≡ (p k && member k xs)
unfolding member keep
member-keep k p [] = ground arith
member-keep k p (x ∷ xs) = ground (arith, member-keep k p xs, text_eq_iff x k)
