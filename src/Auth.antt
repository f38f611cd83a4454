-- ===== src/Auth.antt =====
-- src/auth/storage.rs and the data of src/auth/oauth2.rs: the tokens and the encrypted file that
-- keeps them. The crates for AES-GCM, SHA-256, JSON and UTF-8 are the record `Crates`. `Outside`
-- says what the world gives at a moment, which each look at it moves on: a nonce, or the error of
-- a call of the file system and what a write that fails leaves in the file. The rights of the file
-- are left out. An `i64` is its 64 bits, so that its sums wrap.
pub mod Consent
pub mod Session
pub mod Stored
mod Examples
use syncgdrive.Base.{
  ℕ, zero, suc, ◌+◌, ◌%◌, ◌^◌, Text, codes, Bool, true, false, ltb, length, Option, none, some,
  List, [], ◌∷◌, ◌++◌, Result, ok, err, Error, bail, context, or_context, Act, pure, fail, lift,
  gets, modify, ◌>>=◌, ◌>>◌,
}

pub record GoogleTokens : Type 0 where
  pub access_token : Text
  pub refresh_token : Text
  pub expires_at : ℕ
  pub scope : Text

abbrev pub Bytes : Type 0
Bytes = List ℕ

pub record Crates : Type 0 where
  pub sha256 : Text → Bytes
  pub encrypt : Bytes → Bytes → Bytes → Option Bytes
  pub decrypt : Bytes → Bytes → Bytes → Option Bytes
  pub to_json : GoogleTokens → Result Text
  pub from_json : Text → Result GoogleTokens
  pub as_bytes : Text → Bytes
  pub from_utf8 : Bytes → Result Text

pub record Outside : Type 0 where
  pub nonce : ℕ → Bytes
  pub disk_call : ℕ → Result (Unit {0})
  pub remains : ℕ → Option Bytes → Option Bytes

-- The file `tokens.enc`, and the looks at the world so far.
pub record Vault : Type 0 where
  pub file : Option Bytes
  pub looks : ℕ

-- One look at the world.
abbrev pub look : {A : Type 0} → (ℕ → Result A) → Act Vault A
look f s = (f s.looks, record s { looks = s.looks + 1 })

-- `&data[..n]` and `&data[n..]`, where `data` has `n` bytes.
unfoldable pub split_at : ℕ → Bytes → Bytes × Bytes
split_at zero bytes = ([], bytes)
split_at (suc n) [] = ([], [])
split_at (suc n) (b ∷ bytes) = let (front, back) = split_at n bytes in (b ∷ front, back)

abbrev pub encryption_failed : Text
encryption_failed = codes "Échec du chiffrement AES-256-GCM : "

abbrev pub decryption_failed : Text
decryption_failed =
    codes
      "Échec du déchiffrement. Le CLIENT_SECRET a-t-il été modifié depuis la dernière connexion ?"

abbrev pub too_short : Text
too_short =
    codes "Fichier de tokens corrompu (taille insuffisante pour contenir un Nonce et un MAC)"

-- The key of `EncryptedFileStorage::new`, from the variable SYNCGDRIVE_CLIENT_SECRET.
unfoldable pub derive_key : Crates → Result Text → Result Bytes
derive_key crates client_secret =
    elim (context
      (codes
        "SYNCGDRIVE_CLIENT_SECRET manquant pour le chiffrement. Avez-vous configuré votre fichier .env ?")
      client_secret) [ ok app_secret ↦ ok (crates.sha256 app_secret) | err e ↦ err e ]

module _ (crates : Crates) (outside : Outside) (key : Bytes) where
  -- `std::fs::write` of the file: a failure may leave anything in it.
  unfoldable pub write_file : Bytes → Act Vault (Unit {0})
  write_file content s = elim (outside.disk_call s.looks) [
    | ok done ↦ (ok tt, record { file = some content; looks = s.looks + 1 })
    | err e ↦ (err e, record { file = outside.remains s.looks s.file; looks = s.looks + 1 })
  ]

  -- A call whose error gets the message.
  abbrev pub disk_call : Text → Act Vault (Unit {0})
  disk_call message = look (λ n. context message (outside.disk_call n))

  unfoldable pub store : GoogleTokens → Act Vault (Unit {0})
  store tokens =
      lift (context (codes "Erreur de sérialisation des tokens vers JSON") (crates.to_json tokens))
      >>= λ json. look (λ n. ok (outside.nonce n)) >>= λ nonce.
          lift (or_context encryption_failed (crates.encrypt key nonce (crates.as_bytes json)))
          >>= λ ciphertext.
              disk_call (codes "Impossible de créer l'arborescence du dossier de configuration")
              >>= λ _. λ s.
                let (r, s') = write_file (nonce ++ ciphertext) s in
                (context (codes "Impossible d'écrire le fichier chiffré sur le disque") r, s')

  -- What `load` makes of the bytes of the file.
  unfoldable pub open_tokens : Bytes → Result GoogleTokens
  open_tokens bytes = elim (ltb (length bytes) 28) [
    | true ↦ bail too_short
    | false ↦
        let (nonce, ciphertext) = split_at 12 bytes in
        elim (crates.decrypt key nonce ciphertext) [
          | none ↦ bail decryption_failed
          | some plaintext ↦
              elim (context
                (codes
                  "Les données déchiffrées ne forment pas une chaîne de caractères UTF-8 valide")
                (crates.from_utf8 plaintext)) [
                  | err e ↦ err e
                  | ok json ↦
                      context (codes "Structure JSON des tokens illisible ou corrompue")
                        (crates.from_json json)
                ]
        ]
  ]

  unfoldable pub load : Act Vault (Option GoogleTokens)
  load = gets (λ s. s.file) >>= λ file. elim file [
    | none ↦ pure none
    | some bytes ↦
        disk_call (codes "Impossible de lire le fichier chiffré depuis le disque") >>= λ _.
        lift (open_tokens bytes) >>= λ tokens. pure (some tokens)
  ]

  unfoldable pub clear : Act Vault (Unit {0})
  clear = gets (λ s. s.file) >>= λ file. elim file [
    | none ↦ pure tt
    | some bytes ↦ disk_call (codes "Impossible de supprimer le fichier de tokens") >>= λ _.
        modify (λ s. record s { file = none })
  ]
