-- ===== src/Base/Results.antt =====
-- `anyhow::Result`.
use mathlib.Core.List.{List, [], ◌∷◌}
use mathlib.Core.Option.{Option, none, some}
use mathlib.Core.Bool.{Bool, true, false}
use mathlib.Core.Path.{◌≡◌, refl}
use mathlib.Core.Logic.{◌⊎◌, inl, inr}
use syncgdrive.Base.Texts.{Text}

-- An `anyhow::Error` by the messages of its chain, the outermost first.
abbrev pub Error : Type 0
Error = List Text

pub data Result {ℓ} (A : Type ℓ) : Type ℓ where
  ok : A → Result A
  err : Error → Result A

-- `anyhow::bail!`
abbrev pub bail {ℓ} : {A : Type ℓ} → Text → Result A
bail message = err (message ∷ [])

-- `.context(message)`
abbrev pub context {ℓ} : {A : Type ℓ} → Text → Result A → Result A
context message (ok a) = ok a
context message (err e) = err (message ∷ e)

-- `Option::context(message)`
abbrev pub or_context {ℓ} : {A : Type ℓ} → Text → Option A → Result A
or_context message none = bail message
or_context message (some a) = ok a

abbrev pub is_ok {ℓ} : {A : Type ℓ} → Result A → Bool
is_ok (ok a) = true
is_ok (err e) = false

pub Result-cases {ℓ} :
    {A : Type ℓ} (r : Result A) → ((a : A) × (r ≡ ok a)) ⊎ ((e : Error) × (r ≡ err e))
Result-cases (ok a) = inl (a, refl)
Result-cases (err e) = inr (e, refl)
