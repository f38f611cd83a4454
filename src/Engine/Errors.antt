-- ===== src/Engine/Errors.antt =====
-- src/engine/scan.rs and src/engine/mod.rs: the classes of errors, by the messages of their chain.
-- `str::to_lowercase` is a parameter.
mod Examples
use syncgdrive.Base.{
  Text, codes, contains_text, Bool, true, false, ◌||◌, List, [], ◌∷◌, Error, ◌≡◌, arith, refl,
  Bool-cases, inl, inr, if◌then◌else◌,
}

-- `e.chain().any(…)`
unfoldable pub any_message : (Text → Bool) → Error → Bool
any_message p [] = false
any_message p (m ∷ ms) = p m || any_message p ms

-- `s.contains(a) || s.contains(b) || …`
unfoldable pub contains_any : Text → List Text → Bool
contains_any s [] = false
contains_any s (part ∷ parts) = contains_text s part || contains_any s parts

unfoldable pub is_shutdown_err : Error → Bool
is_shutdown_err e =
    any_message (λ s. contains_text s (codes "shutdown") || contains_text s (codes "interrupted")) e

module _ (to_lowercase : Text → Text) where
  unfoldable pub is_quota_err : Error → Bool
  is_quota_err e =
      any_message
        (λ m. contains_any (to_lowercase m) (
          codes "quota"
          ∷ codes "insufficient storage"
          ∷ codes "espace insuffisant"
          ∷ codes "storage full"
          ∷ codes "disk full"
          ∷ codes "no space left"
          ∷ []))
        e

  unfoldable pub is_fatal_remote_err : Error → Bool
  is_fatal_remote_err e =
      any_message
        (λ m. contains_any (to_lowercase m) (
          codes "jetons d'accès"
          ∷ codes "access token"
          ∷ codes "token expired"
          ∷ codes "authentication required"
          ∷ codes "authentification requise"
          ∷ codes "permission denied"
          ∷ codes "unauthorized"
          ∷ codes "403"
          ∷ codes "401"
          ∷ codes "quota"
          ∷ codes "insufficient storage"
          ∷ codes "espace insuffisant"
          ∷ codes "storage full"
          ∷ codes "disk full"
          ∷ codes "no space left"
          ∷ []))
        e

  any_message_mono :
      (p p' : Text → Bool) (e : Error)
      → ((m : Text) → p m ≡ true → p' m ≡ true)
      → any_message p e ≡ true
      → any_message p' e ≡ true
  unfolding any_message
  any_message_mono p p' [] le h = absurd (ground arith)
  any_message_mono p p' (m ∷ ms) le h = elim (Bool-cases (p m)) [
    | inl now ↦ ground (arith, le m now)
    | inr later ↦ ground (arith, any_message_mono p p' ms le (ground (arith, h, later)))
  ]

  -- An error that tells of a full quota is fatal too.
  pub quota-is_fatal : (e : Error) → is_quota_err e ≡ true → is_fatal_remote_err e ≡ true
  unfolding is_quota_err is_fatal_remote_err contains_any
  quota-is_fatal e h = any_message_mono _ _ e (λ m found. ground (arith, found)) h
