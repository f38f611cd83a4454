-- ===== src/Auth/Session.antt =====
-- src/auth/google_auth.rs: the token of the session, over the encrypted file and the calls of
-- Google. The message to the desktop has no effect on the result.
use syncgdrive.Base.{
  ℕ, ◌+◌, ◌%◌, ◌^◌, Text, codes, Bool, true, false, ltb, Option, none, some, ok, err, context,
  or_context, Act, pure, lift, attempt, ◌>>=◌,
}
use syncgdrive.Auth.{GoogleTokens, Crates, Outside, Vault, Bytes, look, store, load, clear}
use syncgdrive.Auth.Consent.{Google, Grant, add_seconds, seconds_of, authenticate}

-- `a > b` on the bits of two `i64`.
unfoldable pub is_later : ℕ → ℕ → Bool
is_later a b = ltb ((b + 2 ^ 63) % 2 ^ 64) ((a + 2 ^ 63) % 2 ^ 64)

-- The tokens after a refresh.
unfoldable pub renewed : GoogleTokens → Grant → ℕ → GoogleTokens
renewed tokens grant now = record tokens {
  access_token = grant.access_token;
  refresh_token = elim grant.refresh_token [ none ↦ tokens.refresh_token | some r ↦ r ];
  expires_at = add_seconds now (seconds_of grant.expires_in);
}

module _ (crates : Crates) (outside : Outside) (key : Bytes) (google : Google) where
  unfoldable pub save_tokens : GoogleTokens → Act Vault (Unit {0})
  save_tokens = store crates outside key

  -- The end of both ways to a new token.
  abbrev pub save_and_return : GoogleTokens → Act Vault Text
  save_and_return new_tokens = save_tokens new_tokens >>= λ _. pure new_tokens.access_token

  -- The refresh was refused: the file goes, and the user is asked again.
  unfoldable pub reconnect : Act Vault Text
  reconnect = attempt (clear crates outside key) >>= λ _.
      (λ s.
        let (r, s') = authenticate google s in
        (context (codes "Échec de la nouvelle authentification via le navigateur") r, s'))
      >>= λ new_tokens. save_and_return new_tokens

  unfoldable pub refresh : GoogleTokens → Act Vault Text
  refresh tokens =
      attempt (look (google.exchange_refresh_token tokens.refresh_token)) >>= λ token_result.
      elim token_result [
        | err e ↦ reconnect
        | ok grant ↦ look (λ n. ok (google.timestamp n)) >>= λ now.
            save_and_return (renewed tokens grant now)
      ]

  unfoldable pub get_valid_token : Act Vault Text
  get_valid_token = load crates outside key >>= λ found.
      lift (
        or_context (codes "Aucun jeton trouvé. Veuillez vous connecter dans les paramètres.") found)
      >>= λ tokens. look (λ n. ok (google.timestamp n)) >>= λ now.
          elim (is_later tokens.expires_at (add_seconds now 300)) [
            | true ↦ pure tokens.access_token
            | false ↦ refresh tokens
          ]

  unfoldable pub revoke_token : Act Vault (Unit {0})
  revoke_token = attempt (load crates outside key) >>= λ found.
      (elim found [
        | ok (some tokens) ↦ attempt (look (google.revoke tokens.refresh_token)) >>= λ _. pure tt
        | _ ↦ pure tt
      ])
      >>= λ _. λ s.
        let (r, s') = clear crates outside key s in
        (context (codes "Erreur lors de la suppression du fichier de tokens") r, s')

  unfoldable pub is_locally_connected : Act Vault Bool
  is_locally_connected = attempt (load crates outside key) >>= λ found. elim found [
    | ok (some tokens) ↦ pure true
    | _ ↦ pure false
  ]

  unfoldable pub get_user_email : Act Vault Text
  get_user_email = get_valid_token >>= λ token. look (google.about_user token)

  -- `format` is chrono's, none out of its range.
  unfoldable pub get_token_expiration_date : (ℕ → Option Text) → Act Vault Text
  get_token_expiration_date format = attempt (load crates outside key) >>= λ found. elim found [
    | ok (some tokens) ↦ elim (format tokens.expires_at) [
      | some date ↦ pure date
      | none ↦ pure (codes "Inconnue")
    ]
    | _ ↦ pure (codes "Inconnue")
  ]
