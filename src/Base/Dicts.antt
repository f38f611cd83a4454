-- ===== src/Base/Dicts.antt =====
-- `HashMap<String, V>` as an association list with one entry for a key.
use mathlib.Core.Path.{◌≡◌, refl}
use mathlib.Core.Bool.{Bool, not}
use mathlib.Core.List.{List, [], ◌∷◌}
use mathlib.Core.Option.{Option, none, some}
use native.Mathlib.Omega.{arith}
use syncgdrive.Base.Tests.{if◌then◌else◌}
use syncgdrive.Base.Texts.{Text, text_eq, text_eq_iff}

abbrev pub Dict {ℓ} : Type ℓ → Type ℓ
Dict V = List (Text × V)

module _ {ℓ} {V : Type ℓ} where
  -- `map.get(k)`
  unfoldable pub get : Dict V → Text → Option V
  get [] k = none
  get ((j, v) ∷ m) k = if text_eq j k then some v else get m k

  -- `map.insert(k, v)`
  unfoldable pub put : Dict V → Text → V → Dict V
  put [] k v = (k, v) ∷ []
  put ((j, w) ∷ m) k v = if text_eq j k then (k, v) ∷ m else (j, w) ∷ put m k v

  -- `map.retain(|k, _| p(k))`
  unfoldable pub retain : (Text → Bool) → Dict V → Dict V
  retain p [] = []
  retain p ((j, v) ∷ m) = let rest = retain p m in if p j then (j, v) ∷ rest else rest

  -- `map.remove(k)`
  unfoldable pub remove : Dict V → Text → Dict V
  unfolding retain
  remove m k = retain (λ j. not (text_eq j k)) m

  pub get-put :
      (m : Dict V) (k : Text) (v : V) (j : Text)
      → get (put m k v) j ≡ (if text_eq k j then some v else get m j)
  unfolding get put
  get-put [] k v j = refl
  get-put ((i, w) ∷ m) k v j =
      ground (arith, get-put m k v j, text_eq_iff i k, text_eq_iff i j, text_eq_iff k j)

  pub get-retain :
      (p : Text → Bool) (m : Dict V) (j : Text)
      → get (retain p m) j ≡ (if p j then get m j else none)
  unfolding get retain
  get-retain p [] j = ground arith
  get-retain p ((i, w) ∷ m) j = ground (arith, get-retain p m j, text_eq_iff i j)

  pub get-remove :
      (m : Dict V) (k j : Text) → get (remove m k) j ≡ (if text_eq k j then none else get m j)
  unfolding remove
  get-remove m k j =
      ground (arith, get-retain (λ i. not (text_eq i k)) m j, text_eq_iff k j, text_eq_iff j k)
