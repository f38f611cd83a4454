-- ===== src/Engine/Errors/Examples.antt =====
-- Errors of the provider, as the chains of their messages.
use syncgdrive.Base.{
  Text, codes, contains_text, starts_with, true, false, [], ◌∷◌, Error, ◌≡◌, refl,
}
use syncgdrive.Engine.Errors.{
  is_quota_err, is_fatal_remote_err, is_shutdown_err, any_message, contains_any, quota-is_fatal,
}

abbrev quota : Error
quota = codes "upload" ∷ codes "storage quota" ∷ []

abbrev same : Text → Text
same s = s

quota-is_fatal_example : is_fatal_remote_err same quota ≡ true
unfolding is_quota_err any_message contains_any contains_text
quota-is_fatal_example = quota-is_fatal same quota refl

-- The error of a pause that the shutdown cuts short does not count as a shutdown.
is_shutdown_err_cancelled : is_shutdown_err (codes "Annulé" ∷ []) ≡ false
unfolding is_shutdown_err any_message contains_text starts_with
is_shutdown_err_cancelled = refl
