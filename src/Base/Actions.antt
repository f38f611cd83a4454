-- ===== src/Base/Actions.antt =====
-- Methods that change a state and may fail. What was written before a failure stays written, so the
-- state comes back beside the error too.
use mathlib.Core.Bool.{Bool, true, false}
use mathlib.Core.Path.{◌≡◌, ap}
use mathlib.Core.Logic.{inl, inr}
use native.Mathlib.Omega.{arith}
use syncgdrive.Base.Results.{Error, Result, ok, err, Result-cases}

abbrev pub Act {ℓ} : Type ℓ → Type ℓ → Type ℓ
Act S A = S → Result A × S

module _ {ℓ} {S A : Type ℓ} where
  abbrev pub pure : A → Act S A
  pure a s = (ok a, s)

  abbrev pub fail : Error → Act S A
  fail e s = (err e, s)

  abbrev pub lift : Result A → Act S A
  lift r s = (r, s)

  abbrev pub gets : (S → A) → Act S A
  gets f s = (ok (f s), s)

module _ {ℓ} {S A B : Type ℓ} where
  infixl 5 ◌>>=◌ ◌>>◌
  -- `?`: an error ends the method.
  unfoldable pub ◌>>=◌ : Act S A → (A → Act S B) → Act S B
  ◌>>=◌ m f s = let (r, s') = m s in elim r [ ok a ↦ f a s' | err e ↦ (err e, s') ]

  abbrev pub ◌>>◌ : Act S A → Act S B → Act S B
  m >> k = m >>= λ _. k

module _ {ℓ} {S : Type ℓ} where
  abbrev pub modify : (S → S) → Act S (Unit {ℓ})
  modify f s = (ok tt, f s)

  abbrev pub when : Bool → Act S (Unit {ℓ}) → Act S (Unit {ℓ})
  when b m s = elim b [ true ↦ m s | false ↦ (ok tt, s) ]

-- The result of a call whose error is looked at.
abbrev pub attempt {ℓ} : {S A : Type ℓ} → Act S A → Act S (Result A)
attempt m s = let (r, s') = m s in (ok r, s')

module _ {ℓ} {S A B : Type ℓ} where
  pub bind-done :
      (m : Act S A) (f : A → Act S B) (s : S) (a : A) (t : S)
      → m s ≡ (ok a, t)
      → (m >>= f) s ≡ f a t
  unfolding ◌>>=◌
  bind-done m f s a t e = ap (λ r. elim r.0 [ ok b ↦ f b r.1 | err x ↦ (err x, r.1) ]) e

-- An action that only moves along a preorder of states.
abbrev pub Keeps {ℓ} : {S A : Type ℓ} → (S → S → Type ℓ) → Act S A → Type ℓ
Keeps P m = (s : _) → P s (m s).1

module _ {ℓ} {S : Type ℓ} (P : S → S → Type ℓ) (P_refl : (s : S) → P s s)
    (P_trans : (s t u : S) → P s t → P t u → P s u) where
  pub bind-Keeps :
      {A B : Type ℓ} (m : Act S A) (f : A → Act S B)
      → Keeps P m
      → ((a : A) → Keeps P (f a))
      → Keeps P (m >>= f)
  unfolding ◌>>=◌
  bind-Keeps m f first next s = elim (Result-cases (m s).0) [
    | inl (a, e) ↦ rw (◌>>=◌, e) (P_trans s (m s).1 _ (first s) (next a (m s).1))
    | inr (x, e) ↦ rw (◌>>=◌, e) (first s)
  ]

  pub when-Keeps : (b : Bool) (m : Act S (Unit {ℓ})) → Keeps P m → Keeps P (when b m)
  when-Keeps true m keeps = keeps
  when-Keeps false m keeps = λ s. P_refl s

-- What holds after a success, where a condition held before.
abbrev pub Triple {ℓ} : {S A : Type ℓ} → (S → Type ℓ) → Act S A → (A → S → Type ℓ) → Type ℓ
Triple P m Q = (s : _) → P s → (a : _) → (m s).0 ≡ ok a → Q a (m s).1

module _ {ℓ} {S A B : Type ℓ} where
  pub bind-Triple :
      (P : S → Type ℓ) (Q : A → S → Type ℓ) (W : B → S → Type ℓ) (m : Act S A) (f : A → Act S B)
      → Triple P m Q
      → ((a : A) → Triple (Q a) (f a) W)
      → Triple P (m >>= f) W
  unfolding ◌>>=◌
  bind-Triple P Q W m f first next s p b = elim (Result-cases (m s).0) [
    | inl (a, e) ↦ rw (◌>>=◌, e) (next a (m s).1 (first s p a e) b)
    | inr (x, e) ↦ rw (◌>>=◌, e) (λ h. absurd (ground arith))
  ]

-- What holds however an action ends, where a condition held before.
abbrev pub Always {ℓ} : {S A : Type ℓ} → (S → Type ℓ) → Act S A → (S → Type ℓ) → Type ℓ
Always P m Q = (s : _) → P s → Q (m s).1

module _ {ℓ} {S A B : Type ℓ} where
  pub bind-Always :
      (P Q W : S → Type ℓ) (m : Act S A) (f : A → Act S B)
      → ((s : S) → Q s → W s)
      → Always P m Q
      → ((a : A) → Always Q (f a) W)
      → Always P (m >>= f) W
  unfolding ◌>>=◌
  bind-Always P Q W m f weaken first next s p = elim (Result-cases (m s).0) [
    | inl (a, e) ↦ rw (◌>>=◌, e) (next a (m s).1 (first s p))
    | inr (x, e) ↦ rw (◌>>=◌, e) (weaken (m s).1 (first s p))
  ]
