-- ===== src/Auth/Stored.antt =====
-- src/auth/google_auth.rs, src/auth/storage.rs: the tokens in the file after the calls of a session.
-- What the crates promise: a nonce has 12 bytes, decryption undoes encryption and the tag has 16
-- bytes, UTF-8 and JSON read back what they wrote.
use mathlib.Core.Path.{subst}
use syncgdrive.Base.{
  ℕ, ◌≤◌, Text, codes, Bool, true, false, ltb, length, length-append, Option, none, some, [], ◌∷◌,
  ◌++◌, Result, ok, err, Result-cases, context, or_context, Act, pure, lift, ◌>>=◌, Triple,
  bind-Triple, ◌≡◌, refl, sym, ap, ◌∙◌, inl, inr, arith,
}
use syncgdrive.Auth.{
  GoogleTokens, Bytes, Crates, Outside, Vault, look, split_at, open_tokens, write_file, store, load,
}
use syncgdrive.Auth.Consent.{add_seconds, Google, Grant}
use syncgdrive.Auth.Session.{
  get_valid_token, refresh, reconnect, save_tokens, save_and_return, renewed, is_later,
}

context-ok :
    {A : Type 0} (message : Text) (r : Result A) (a : A) → context message r ≡ ok a → r ≡ ok a
context-ok message (ok b) a e = e
context-ok message (err x) a e = absurd (ground (arith, e))

ok_injective : {A : Type 0} {a b : A} → ok a ≡ ok b → a ≡ b
ok_injective e = ground (arith, e)

same : {A : Type 0} (a b : A) (found : Option A) → ok (some a) ≡ ok found → found ≡ some b → a ≡ b
same a b found e h = ground (arith, e, h)

or_context-ok :
    {A : Type 0} (message : Text) (o : Option A) (a : A) → or_context message o ≡ ok a → o ≡ some a
or_context-ok message (some b) a e = ground (arith, e)
or_context-ok message none a e = absurd (ground (arith, e))

pub split_at-append : (xs ys : Bytes) → split_at (length xs) (xs ++ ys) ≡ (xs, ys)
unfolding split_at
split_at-append [] ys = refl
split_at-append (x ∷ xs) ys = ap (λ p. (x ∷ p.0, p.1)) (split_at-append xs ys)

-- Nothing is asked of the state that an action starts from.
abbrev Anything : Vault → Type 0
Anything s = Unit {0}

then-Triple :
    {A B : Type 0} (W : B → Vault → Type 0) (m : Act Vault A) (f : A → Act Vault B)
    → ((a : A) → Triple Anything (f a) W)
    → Triple Anything (m >>= f) W
then-Triple W m f = bind-Triple Anything (λ a s. Unit {0}) W m f (λ s u a e. tt)

module _ (crates : Crates) (outside : Outside) (key : Bytes) where
  -- The file opens to the tokens.
  abbrev pub Holds : GoogleTokens → Vault → Type 0
  Holds tokens s =
      (bytes : Bytes) × (s.file ≡ some bytes) × (open_tokens crates outside key bytes ≡ ok tokens)

  -- The file opens to tokens with this access token.
  abbrev pub Stored : Text → Vault → Type 0
  Stored token s = (tokens : GoogleTokens) × Holds tokens s × (tokens.access_token ≡ token)

  module _ (nonce_bytes : (n : ℕ) → length (outside.nonce n) ≡ 12)
      (sealed : (nonce plaintext ciphertext : Bytes)
        → crates.encrypt key nonce plaintext ≡ some ciphertext
        → (crates.decrypt key nonce ciphertext ≡ some plaintext) × (16 ≤ length ciphertext))
      (utf8 : (t : Text) → crates.from_utf8 (crates.as_bytes t) ≡ ok t)
      (json_back : (tokens : GoogleTokens) (json : Text)
        → crates.to_json tokens ≡ ok json
        → crates.from_json json ≡ ok tokens)
      (google : Google) where
    nonce_of : (n : ℕ) (nonce : Bytes) → ok (outside.nonce n) ≡ ok nonce → length nonce ≡ 12
    nonce_of n nonce e = ap length (sym (ok_injective e)) ∙ nonce_bytes n

    open_tokens-sealed :
        (tokens : GoogleTokens) (json : Text) (nonce ciphertext : Bytes)
        → crates.to_json tokens ≡ ok json
        → length nonce ≡ 12
        → crates.encrypt key nonce (crates.as_bytes json) ≡ some ciphertext
        → open_tokens crates outside key (nonce ++ ciphertext) ≡ ok tokens
    unfolding open_tokens
    open_tokens-sealed tokens json nonce ciphertext j n c =
        let (opened, tag) = sealed nonce (crates.as_bytes json) ciphertext c in
        let long : ltb (length (nonce ++ ciphertext)) 28 ≡ false =
          ground (arith, length-append nonce ciphertext) in
        let parts : split_at 12 (nonce ++ ciphertext) ≡ (nonce, ciphertext) =
          rw (sym n) (split_at-append nonce ciphertext) in
        rw (open_tokens, long, parts, opened, utf8 json, json_back tokens json j) refl

    write_file-Holds :
        (tokens : GoogleTokens) (message : Text) (bytes : Bytes)
        → open_tokens crates outside key bytes ≡ ok tokens
        → Triple Anything
            (λ s. let (r, s') = write_file crates outside key bytes s in (context message r, s'))
            (λ _ s. Holds tokens s)
    unfolding write_file
    write_file-Holds tokens message bytes opened s u a =
        elim (Result-cases (outside.disk_call s.looks)) [
          | inl (done, e) ↦ rw (write_file, e) (λ h. (bytes, refl, opened))
          | inr (x, e) ↦ rw (write_file, e) (λ h. absurd (ground (arith, h)))
        ]

    store-Holds :
        (tokens : GoogleTokens)
        → Triple Anything (store crates outside key tokens) (λ _ s. Holds tokens s)
    unfolding store
    store-Holds tokens =
        let all = λ (_ : Unit {0}). Holds tokens in
        bind-Triple Anything (λ json s. crates.to_json tokens ≡ ok json) all _ _
          (λ s u json e. context-ok _ (crates.to_json tokens) json e)
          λ json s j.
            bind-Triple Anything (λ nonce s. length nonce ≡ 12) all _ _
              (λ s u nonce e. nonce_of s.looks nonce e)
              (λ nonce s n.
                bind-Triple Anything
                  (λ c s. crates.encrypt key nonce (crates.as_bytes json) ≡ some c) all _ _
                  (λ s u c e. or_context-ok _ (crates.encrypt key nonce (crates.as_bytes json)) c e)
                  (λ ciphertext s c.
                    then-Triple all _ _
                      (λ _.
                        write_file-Holds tokens _ (nonce ++ ciphertext)
                          (open_tokens-sealed tokens json nonce ciphertext j n c))
                      s tt)
                  s tt)
              s tt

    save-Stored :
        (tokens : GoogleTokens)
        → Triple Anything (save_and_return crates outside key google tokens) Stored
    unfolding save_tokens
    save-Stored tokens =
        bind-Triple Anything (λ _ s. Holds tokens s) Stored _ _ (store-Holds tokens)
          λ _ s holds a e. (tokens, holds, ok_injective e)

    reconnect-Stored : Triple Anything (reconnect crates outside key google) Stored
    unfolding reconnect
    reconnect-Stored =
        then-Triple Stored _ _ λ _. then-Triple Stored _ _ λ new_tokens. save-Stored new_tokens

    refresh-Stored :
        (tokens : GoogleTokens) → Triple Anything (refresh crates outside key google tokens) Stored
    unfolding refresh
    refresh-Stored tokens = then-Triple Stored _ _ λ r. answer r
      where
        answer :
            (r : Result Grant)
            → Triple Anything
                (elim r [
                  | err e ↦ reconnect crates outside key google
                  | ok grant ↦ look (λ n. ok (google.timestamp n)) >>= λ now.
                      save_and_return crates outside key google (renewed tokens grant now)
                ])
                Stored
        answer (err e) = reconnect-Stored
        answer (ok grant) = then-Triple Stored _ _ λ now. save-Stored (renewed tokens grant now)

    -- What a load says of the file.
    abbrev Loaded : Option GoogleTokens → Vault → Type 0
    Loaded found s = (tokens : GoogleTokens) → found ≡ some tokens → Holds tokens s

    load-Holds : Triple Anything (load crates outside key) Loaded
    unfolding load
    load-Holds =
        bind-Triple Anything (λ file s. s.file ≡ file) Loaded _ _ (λ s u file e. ok_injective e)
          λ file. opened file
      where
        opened :
            (file : Option Bytes)
            → Triple
                (λ s. s.file ≡ file)
                (elim file [
                  | none ↦ pure none
                  | some bytes ↦
                      look (λ n.
                        context
                          (codes "Impossible de lire le fichier chiffré depuis le disque")
                          (outside.disk_call n))
                      >>= λ _. lift (open_tokens crates outside key bytes) >>= λ tokens.
                          pure (some tokens)
                ])
                Loaded
        opened none = λ s file found e tokens h. absurd (ground (arith, e, h))
        opened (some bytes) =
            bind-Triple (λ s. s.file ≡ some bytes) (λ _ s. s.file ≡ some bytes) Loaded _ _
              (λ s file u e. file)
              λ _.
                bind-Triple (λ s. s.file ≡ some bytes) (λ tokens s. Holds tokens s) Loaded _ _
                  (λ s file tokens e. (bytes, file, e))
                  λ tokens s holds found e t h.
                    subst (λ x. Holds x s) (same tokens t found e h) holds

    -- Where the crates keep their promises and a nonce has 12 bytes: a token that get_valid_token
    -- returns, be it the one that was kept, a refreshed one or that of a new consent, is the access token
    -- of the tokens to which the file opens afterwards.
    pub get_valid_token-Stored :
        (s : Vault) (token : Text)
        → (get_valid_token crates outside key google s).0 ≡ ok token
        → Stored token (get_valid_token crates outside key google s).1
    unfolding get_valid_token
    get_valid_token-Stored s token e =
        bind-Triple Anything Loaded Stored _ _ load-Holds
          (λ found.
            bind-Triple (Loaded found) (λ tokens s. Holds tokens s) Stored _ _
              (λ s loaded tokens e. loaded tokens (or_context-ok _ found tokens e))
              λ tokens.
                bind-Triple (Holds tokens) (λ _ s. Holds tokens s) Stored _ _
                  (λ s holds now e. holds)
                  λ now. given tokens (is_later tokens.expires_at (add_seconds now 300)))
          s tt token e
      where
        given :
            (tokens : GoogleTokens) (valid : Bool)
            → Triple
                (Holds tokens)
                (elim valid [
                  | true ↦ pure tokens.access_token
                  | false ↦ refresh crates outside key google tokens
                ])
                Stored
        given tokens true = λ s holds a e. (tokens, holds, ok_injective e)
        given tokens false = λ s holds. refresh-Stored tokens s tt
