-- ===== src/Auth/Consent.antt =====
-- src/auth/oauth2.rs: the consent of the user in the browser. The socket, the random values, the
-- parser of URLs, the test for white space and the exchange of the code are the record `Google`.
-- The opening of the browser and the printed lines have no effect on the result.
use syncgdrive.Base.{
  ℕ, ◌+◌, ◌%◌, ◌^◌, Text, codes, text_eq, is_empty, Bool, Option, none, some, List, [], ◌∷◌, ◌++◌,
  Dict, get, Result, ok, err, context, or_context, Act, pure, lift, ◌>>=◌, if◌then◌else◌,
}
use syncgdrive.Auth.{GoogleTokens, Vault, look}

-- The answer of the token endpoint.
pub record Grant : Type 0 where
  pub access_token : Text
  pub refresh_token : Option Text
  pub expires_in : Option ℕ

pub record Google : Type 0 where
  pub bind : ℕ → Result (Unit {0})
  pub build_client : ℕ → Result (Unit {0})
  pub csrf_token : ℕ → Text
  pub pkce_verifier : ℕ → Text
  pub request_line : ℕ → Result Text
  pub write_response : ℕ → Result (Unit {0})
  pub is_whitespace : ℕ → Bool
  pub query_pairs : Text → Result (Dict Text)
  pub exchange_code : Text → Text → ℕ → Result Grant
  pub exchange_refresh_token : Text → ℕ → Result Grant
  pub timestamp : ℕ → ℕ
  pub revoke : Text → ℕ → Result (Unit {0})
  pub about_user : Text → ℕ → Result Text

-- `now + expires_in`, on 64 bits.
unfoldable pub add_seconds : ℕ → ℕ → ℕ
add_seconds now seconds = (now + seconds) % 2 ^ 64

unfoldable pub seconds_of : Option ℕ → ℕ
seconds_of none = 3599
seconds_of (some seconds) = seconds

-- `str::split_whitespace`, with the word that is being read.
unfoldable pub split_words : (ℕ → Bool) → Text → Text → List Text
split_words space word [] = if is_empty word then [] else word ∷ []
split_words space word (c ∷ s) =
    let rest = split_words space [] s in
    let longer = split_words space (word ++ c ∷ []) s in
    if space c then (if is_empty word then rest else word ∷ rest) else longer

-- `.nth(1)`
unfoldable pub second : List Text → Option Text
second (a ∷ b ∷ words) = some b
second words = none

module _ (google : Google) where
  -- The code that Google sends back, once its state is the one that was sent.
  unfoldable pub code_of : Text → Text → Result Text
  code_of csrf_token request_line =
      elim (or_context (codes "Requête HTTP invalide")
        (second (split_words google.is_whitespace [] request_line))) [
          | err e ↦ err e
          | ok redirect_url ↦ elim (google.query_pairs (codes "http://localhost" ++ redirect_url)) [
            | err e ↦ err e
            | ok pairs ↦
                elim (or_context (codes "Code d'autorisation non trouvé dans la requête")
                  (get pairs (codes "code"))) [
                    | err e ↦ err e
                    | ok code ↦
                        elim (or_context (codes "State CSRF non trouvé")
                          (get pairs (codes "state"))) [
                            | err e ↦ err e
                            | ok state ↦
                                if text_eq state csrf_token
                                then ok code
                                else err (
                                    codes
                                      "Attaque CSRF détectée (le paramètre state ne correspond pas)"
                                    ∷ [])
                          ]
                  ]
          ]
        ]

  unfoldable pub authenticate : Act Vault GoogleTokens
  authenticate =
      look (λ n. context (codes "Impossible de lier un port local") (google.bind n)) >>= λ _.
      look google.build_client >>= λ _. look (λ n. ok (google.pkce_verifier n)) >>= λ verifier.
      look (λ n. ok (google.csrf_token n)) >>= λ csrf_token.
      look google.request_line >>= λ request_line. look google.write_response >>= λ _.
      lift (code_of csrf_token request_line) >>= λ code.
      look (λ n.
        context (codes "Échec lors de l'échange du code OAuth2")
          (google.exchange_code code verifier n))
      >>= λ grant. look (λ n. ok (google.timestamp n)) >>= λ now. pure (record {
        access_token = grant.access_token;
        refresh_token = elim grant.refresh_token [ none ↦ [] | some r ↦ r ];
        expires_at = add_seconds now (seconds_of grant.expires_in);
        scope = codes "https://www.googleapis.com/auth/drive.file";
      })
