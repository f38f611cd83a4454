-- ===== src/Engine/Worker/Attempts.antt =====
-- src/engine/worker.rs and src/engine/scan.rs: the loops that try again.
use mathlib.Core.Path.{subst}
use syncgdrive.Base.{
  ℕ, zero, suc, ◌+◌, ◌≡◌, refl, ap, Text, text_eq_iff, true, false, Bool-cases, Option, some,
  Result, Result-cases, ok, Error, inl, inr, List, arith, Act, fail, ◌>>=◌, ◌≤◌,
}
use syncgdrive.Paths.{FilePath}
use syncgdrive.Engine.Progress.{ProgressTracker}
use syncgdrive.Engine.Worker.{
  upload_error, Environment, Provider, State, intact, mismatch, retry, verify_upload, compute_hash,
  is_cancelled, paused_error,
}
use syncgdrive.Config.{AppConfig}
use syncgdrive.Remote.{UploadResult}
use syncgdrive.Engine.Worker.Sync.{upload_once, upload_loop}

-- The cache and the index are as they were.
abbrev pub Same : {R : Type 0} → State R → State R → Type 0
Same s s' = (s'.path_cache ≡ s.path_cache) × (s'.db ≡ s.db)

-- Some look at the file read a content with this digest.
abbrev pub IsDigest : Environment → FilePath → Text → Type 0
IsDigest env path digest =
    (now : ℕ) × (bytes : List ℕ) × (env.read now path ≡ ok bytes) × (env.md5 bytes ≡ digest)

abbrev pub tick : {R : Type 0} → State R → State R
tick s = record s { clock = s.clock + 1 }

module _ {R : Type 0} (env : Environment) where
  module _ {A : Type 0} (f : Act (State R) A) (f-Same : (s : State R) → Same s (f s).1) where
    pub retry-Same : (left : ℕ) (s : State R) → Same s (retry env left f s).1
    unfolding retry ◌>>=◌
    retry-Same zero s = ground (arith, f-Same (tick s))
    retry-Same (suc left) s = ground (arith, f-Same (tick s), retry-Same left (tick (f (tick s)).1))

ok_injective : {A : Type 0} {a b : A} → ok a ≡ ok b → a ≡ b
ok_injective e = ground (arith, e)

verify_upload-intact :
    (env : Environment) (path : FilePath) (res : UploadResult) (now : ℕ)
    → verify_upload env path res now ≡ ok intact
    → IsDigest env path res.md5_checksum
unfolding verify_upload compute_hash
verify_upload-intact env path res now e = elim (Result-cases (env.read now path)) [
  | inl (bytes, read) ↦
      (now, bytes, read, ground (arith, e, read, text_eq_iff (env.md5 bytes) res.md5_checksum))
  | inr (m, read) ↦ absurd (ground (arith, e, read))
]

module _ {R : Type 0} (env : Environment) (provider : Provider R) (cfg : AppConfig) where
  -- The provider has been asked for this upload, gave this result, and nothing was asked of it since.
  abbrev pub IsUpload : FilePath → Text → Text → UploadResult → State R → Type 0
  IsUpload path parent_id name res s' =
      (id : Option Text) × (r : R × ProgressTracker) × (provider.upload path parent_id name id r
        ≡ (ok res, (s'.remote, s'.tracker)))

  -- What a pass leaves: the cache and the index as they were, and a verified upload if it has one.
  abbrev pub Verified : FilePath → Text → Text → State R → Result UploadResult × State R → Type 0
  Verified path parent_id name s (r, s') =
      Same s s'
      × ((res : UploadResult)
          → r ≡ ok res
          → IsDigest env path res.md5_checksum × IsUpload path parent_id name res s')

  module _ (path : FilePath) (parent_id name : Text) where
    upload_once-Verified :
        (again : Option Text → Error → Act (State R) UploadResult)
        → ((id : Option Text) (e : Error) (s : State R)
            → Verified path parent_id name s (again id e s))
        → (id : Option Text) (s : State R)
        → Verified path parent_id name s
            (upload_once env provider cfg path parent_id name id again s)
    unfolding ◌>>=◌
    upload_once-Verified again later id s = elim (Bool-cases (env.cancelled s.clock)) [
      | inl stop ↦ rw stop ((refl, refl), λ res e. absurd (ground (arith, e)))
      | inr go ↦
          rw go
            (elim (Result-cases (provider.upload path parent_id name id (s.remote, s.tracker)).0) [
              | inr (e, failed) ↦ rw failed (later id _ _)
              | inl (res, sent) ↦
                  rw sent (elim (Result-cases (verify_upload env path res (s.clock + 1))) [
                    | inl (intact, seen) ↦ rw seen (
                      (refl, refl),
                      λ res' e.
                          subst
                            (λ x.
                              IsDigest env path x.md5_checksum
                              × ((id' : Option Text) × (r : R × ProgressTracker) × (provider.upload
                                      path parent_id name id' r
                                    ≡ (
                                      ok x,
                                      (provider.upload path parent_id name id
                                          (s.remote, s.tracker)).1,
                                    ))))
                            (ok_injective e)
                            (
                              verify_upload-intact env path res _ seen,
                              (
                                id,
                                (s.remote, s.tracker),
                                ap
                                    (λ x. (
                                      x,
                                      (provider.upload path parent_id name id
                                          (s.remote, s.tracker)).1,
                                    ))
                                    sent,
                              ),
                            ),
                    )
                    | inl (mismatch l r, seen) ↦ rw seen (later (some res.drive_id) _ _)
                    | inr (e, seen) ↦ rw seen (later (some res.drive_id) _ _)
                  ])
            ])
    ]

  pub upload_loop-Verified :
      (left : ℕ) (path : FilePath) (parent_id name : Text) (id : Option Text) (s : State R)
      → Verified path parent_id name s (upload_loop env provider cfg left path parent_id name id s)
  unfolding upload_loop ◌>>=◌
  upload_loop-Verified zero path parent_id name id s =
      upload_once-Verified path parent_id name (λ _ e. fail e)
        (λ _ e s'. ((refl, refl), λ res h. absurd (ground (arith, h)))) id s
  upload_loop-Verified (suc left) path parent_id name id s =
      upload_once-Verified path parent_id name
        (λ id' e. is_cancelled env >>= λ stop. elim stop [
          | true ↦ fail paused_error
          | false ↦ upload_loop env provider cfg left path parent_id name id'
        ])
        (λ id' e s'. elim (Bool-cases (env.cancelled s'.clock)) [
          | inl stop ↦ rw stop ((refl, refl), λ res h. absurd (ground (arith, h)))
          | inr go ↦ rw go (upload_loop-Verified left path parent_id name id' (tick s'))
        ])
        id s

-- How often the provider is asked, by a measure that one upload raises by at most one.
module _ {R : Type 0} (env : Environment) (provider : Provider R) (cfg : AppConfig) (asked : R → ℕ)
    (counts : (path : FilePath) (parent_id name : Text) (id : Option Text) (r : R)
        (t : ProgressTracker)
      → asked (provider.upload path parent_id name id (r, t)).1.0 ≤ asked r + 1) where
  module _ (path : FilePath) (parent_id name : Text) where
    upload_once-asked :
        (again : Option Text → Error → Act (State R) UploadResult) (k : ℕ)
        → ((id : Option Text) (e : Error) (s : State R)
            → asked (again id e s).1.remote ≤ asked s.remote + k)
        → (id : Option Text) (s : State R)
        → asked (upload_once env provider cfg path parent_id name id again s).1.remote
          ≤ asked s.remote + (k + 1)
    unfolding ◌>>=◌
    upload_once-asked again k later id s =
        let once = counts path parent_id name id s.remote s.tracker in
        elim (Bool-cases (env.cancelled s.clock)) [
          | inl stop ↦ rw stop (omega arith)
          | inr go ↦
              rw go
                (elim (Result-cases
                  (provider.upload path parent_id name id (s.remote, s.tracker)).0) [
                    | inr (e, failed) ↦ rw failed (omega (arith, once, later id (upload_error e) _))
                    | inl (res, sent) ↦
                        rw sent (elim (Result-cases (verify_upload env path res (s.clock + 1))) [
                          | inl (intact, seen) ↦ rw seen (omega (arith, once))
                          | inl (mismatch l r, seen) ↦
                              rw seen (omega (arith, once, later (some res.drive_id) _ _))
                          | inr (e, seen) ↦
                              rw seen (omega (arith, once, later (some res.drive_id) _ _))
                        ])
                  ])
        ]

  -- If one upload raises a count of the provider by at most one, the loop, whatever the provider
  -- answers, raises it by at most the number of passes left and one.
  pub upload_loop-asked :
      (left : ℕ) (path : FilePath) (parent_id name : Text) (id : Option Text) (s : State R)
      → asked (upload_loop env provider cfg left path parent_id name id s).1.remote
        ≤ asked s.remote + (left + 1)
  unfolding upload_loop ◌>>=◌
  upload_loop-asked zero path parent_id name id s =
      upload_once-asked path parent_id name (λ _ e. fail e) 0 (λ _ e s'. omega arith) id s
  upload_loop-asked (suc left) path parent_id name id s = omega (
    arith,
    upload_once-asked path parent_id name
        (λ id' e. is_cancelled env >>= λ stop. elim stop [
          | true ↦ fail paused_error
          | false ↦ upload_loop env provider cfg left path parent_id name id'
        ])
        (left + 1)
        (λ id' e s'. elim (Bool-cases (env.cancelled s'.clock)) [
          | inl stop ↦ rw stop (omega arith)
          | inr go ↦ rw go (upload_loop-asked left path parent_id name id' (tick s'))
        ])
        id s,
  )
