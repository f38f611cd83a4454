-- ===== src/Config/Validation.antt =====
-- src/config.rs: what `validate` accepts, and what its errors point at.
use mathlib.Core.Path.{subst}
use syncgdrive.Base.{
  ℕ, suc, ◌+◌, ◌<◌, ◌≡◌, ◌≢◌, ◌↔◌, refl, ap, is_empty, Bool, true, false, none, some, List, [], ◌∷◌,
  ◌++◌, All, length, Option-cases, inl, inr, arith,
}
use syncgdrive.Paths.{FilePath, parse}
use syncgdrive.Config.{
  AdvancedConfig, SyncPair, AppConfig, ConfigError, no_pairs_configured, pair_name_empty,
  pair_local_empty, pair_local_missing, validate_advanced, is_blank, validate_pair, validate_pairs,
  validate,
}

pub record IsSound (a : AdvancedConfig) : Type 0 where
  pub capacity : 0 < a.engine_channel_capacity
  pub listings : 0 < a.max_concurrent_ls
  pub rate : 0 < a.api_rate_limit_rps

pub validate_advanced_iff : (a : AdvancedConfig) → (validate_advanced a ≡ none) ↔ IsSound a
unfolding validate_advanced
validate_advanced_iff a = (λ h. ground arith, λ h. ground (arith, h.capacity, h.listings, h.rate))

module _ (is_dir : FilePath → Bool) where
  -- A named pair with a path, which is a directory if the pair is active.
  pub record IsUsable (p : SyncPair) : Type 0 where
    pub named : is_blank p.name ≡ false
    pub located : is_empty p.local_path ≡ false
    pub present : p.active ≡ true → is_dir (parse p.local_path) ≡ true

  pub validate_pair_iff : (i : ℕ) (p : SyncPair) → (validate_pair is_dir i p ≡ none) ↔ IsUsable p
  unfolding validate_pair
  validate_pair_iff i p = (
    λ h. record { named = ground arith; located = ground arith; present = λ a. ground arith },
    λ h. ground (arith, h.named, h.located, h.present),
  )

  pub validate_pairs_iff :
      (i : ℕ) (ps : List SyncPair) → (validate_pairs is_dir i ps ≡ none) ↔ All IsUsable ps
  unfolding validate_pairs
  validate_pairs_iff i [] = (λ h. tt, λ h. refl)
  validate_pairs_iff i (p ∷ ps) =
      let one = validate_pair_iff i p in
      let rest = validate_pairs_iff (suc i) ps in
      elim (Option-cases (validate_pair is_dir i p)) [
        | inl fine ↦ rw (fine, validate_pairs) (λ h. (one.0 fine, rest.0 h), λ (u, us). rest.1 us)
        | inr (e, bad) ↦ rw (bad, validate_pairs) (λ h. cc, λ (u, us). cc (one.1 u, bad))
      ]

  -- A configuration is accepted exactly when its advanced part is sound, it has a pair, and every
  -- pair is usable.
  pub validate_iff :
      (cfg : AppConfig)
      → (validate is_dir cfg ≡ none)
        ↔ (IsSound cfg.advanced × (cfg.sync_pairs ≢ []) × All IsUsable cfg.sync_pairs)
  unfolding validate
  validate_iff cfg =
      ground (arith, validate_advanced_iff cfg.advanced, validate_pairs_iff 0 cfg.sync_pairs)

  -- The pair that an error names.
  abbrev pub Blames : ConfigError → ℕ → SyncPair → Type 0
  Blames (pair_name_empty i) j p = (i ≡ j) × (is_blank p.name ≡ true)
  Blames (pair_local_empty i) j p = (i ≡ j) × (is_empty p.local_path ≡ true)
  Blames (pair_local_missing i path) j p =
      (i ≡ j) × (p.local_path ≡ path) × (p.active ≡ true) × (is_dir (parse path) ≡ false)
  Blames _ j p = ⊥

  Blames-at : (e : ConfigError) (p : SyncPair) {j k : ℕ} → j ≡ k → Blames e j p → Blames e k p
  Blames-at e p eq h = subst (λ k. Blames e k p) eq h

  validate_pair-Blames :
      (i : ℕ) (p : SyncPair) (e : ConfigError)
      → validate_pair is_dir i p ≡ some e
      → Blames e (i + 0) p
  unfolding validate_pair
  validate_pair-Blames i p no_pairs_configured h = ground arith
  validate_pair-Blames i p e h = ground arith

  -- An error of the pairs gives the index of the first pair that is not usable, and what it lacks.
  pub validate_pairs-Blames :
      (i : ℕ) (ps : List SyncPair) (e : ConfigError)
      → validate_pairs is_dir i ps ≡ some e
      → (before after : List SyncPair) × (p : SyncPair) × (ps ≡ before ++ p ∷ after)
        × All IsUsable before
        × Blames e (i + length before) p
  unfolding validate_pairs
  validate_pairs-Blames i [] e h = absurd (ground arith)
  validate_pairs-Blames i (p ∷ ps) e h = elim (Option-cases (validate_pair is_dir i p)) [
    | inl fine ↦
        let (before, after, q, same, usable, blamed) =
          validate_pairs-Blames (suc i) ps e (rw (fine, validate_pairs) at h) in
        (
          p ∷ before,
          after,
          q,
          ap (λ l. p ∷ l) same,
          ((validate_pair_iff i p).0 fine, usable),
          Blames-at e q (omega arith) blamed,
        )
    | inr (e', bad) ↦ ([], ps, p, refl, tt, validate_pair-Blames i p e (ground arith))
  ]
