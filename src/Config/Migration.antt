-- ===== src/Config/Migration.antt =====
-- src/config.rs: a load never loses the text of the file, and a migrated file is not migrated again.
use syncgdrive.Base.{
  Text, codes, text_eq_iff, is_empty, true, false, not, some, Option-cases, inl, inr, ◌⊎◌, List, [],
  ◌∷◌, ◌++◌, ◌≡◌, ◌≢◌, refl, arith, get, put, get-put, Result-cases, ok, ◌>>=◌, ◌>>◌,
}
use syncgdrive.Config.{AppConfig, SyncPair}
use syncgdrive.Config.Load.{
  Toml, Os, Disk, backup_path, has_v2_pairs, v1_pair, migrate_v1, parse_and_migrate, save_to_path,
  load_raw, load_from_path, text_at, write,
}

module _ (toml : Toml) (os : Os) where
  save_to_path-get :
      (cfg : AppConfig) (path : Text) (disk : Disk) (k : Text)
      → k ≢ path
      → get (save_to_path toml os cfg path disk).1 k ≡ get disk k
  unfolding save_to_path ◌>>=◌
  save_to_path-get cfg path disk k other = elim (Result-cases (toml.to_string_pretty cfg)) [
    | inl (t, e) ↦ ground (arith, e, get-put disk path t k, text_eq_iff path k)
    | inr (x, e) ↦ ground (arith, e)
  ]

  -- The steps of a migration: the backup, then the new file.
  migrate-get :
      (cfg : AppConfig) (path raw : Text) (disk : Disk) (k : Text)
      → k ≢ path
      → k ≢ backup_path path
      → get ((write toml os (backup_path path) raw >> save_to_path toml os cfg path) disk).1 k
        ≡ get disk k
  unfolding ◌>>=◌
  migrate-get cfg path raw disk k a b = ground (
    arith,
    save_to_path-get cfg path (put disk (backup_path path) raw) k a,
    get-put disk (backup_path path) raw k,
    text_eq_iff (backup_path path) k,
  )

  migrate-raw :
      (cfg : AppConfig) (path raw : Text) (disk : Disk)
      → backup_path path ≢ path
      → get disk path ≡ some raw
      → (get ((write toml os (backup_path path) raw >> save_to_path toml os cfg path) disk).1 path
          ≡ some raw)
        ⊎ (get
              ((write toml os (backup_path path) raw >> save_to_path toml os cfg path) disk).1
              (backup_path path)
            ≡ some raw)
  unfolding ◌>>=◌
  migrate-raw cfg path raw disk apart found = ground (
    arith,
    save_to_path-get cfg path (put disk (backup_path path) raw) (backup_path path) apart,
    get-put disk (backup_path path) raw (backup_path path),
    text_eq_iff (backup_path path) (backup_path path),
  )

  load_raw-get :
      (path raw : Text) (disk : Disk) (k : Text)
      → k ≢ path
      → k ≢ backup_path path
      → get (load_raw toml os path raw disk).1 k ≡ get disk k
  unfolding load_raw ◌>>=◌
  load_raw-get path raw disk k a b = elim (Result-cases (parse_and_migrate toml raw)) [
    | inl (parsed, e) ↦ ground (arith, e, migrate-get parsed.0 path raw disk k a b)
    | inr (x, e) ↦ ground (arith, e)
  ]

  load_raw-raw :
      (path raw : Text) (disk : Disk)
      → backup_path path ≢ path
      → get disk path ≡ some raw
      → (get (load_raw toml os path raw disk).1 path ≡ some raw)
        ⊎ (get (load_raw toml os path raw disk).1 (backup_path path) ≡ some raw)
  unfolding load_raw ◌>>=◌
  load_raw-raw path raw disk apart found = elim (Result-cases (parse_and_migrate toml raw)) [
    | inl (parsed, e) ↦ ground (arith, e, migrate-raw parsed.0 path raw disk apart found)
    | inr (x, e) ↦ ground (arith, e)
  ]

  -- Whether a load of an existing file succeeds, fails or panics at any point, the text that the
  -- file held is still in the file or in its backup, and no other file is touched.
  pub load_from_path-keeps_text :
      (path raw : Text) (disk : Disk)
      → backup_path path ≢ path
      → get disk path ≡ some raw
      → ((get (load_from_path toml os path disk).1 path ≡ some raw)
          ⊎ (get (load_from_path toml os path disk).1 (backup_path path) ≡ some raw))
        × ((k : Text)
            → k ≢ path
            → k ≢ backup_path path
            → get (load_from_path toml os path disk).1 k ≡ get disk k)
  unfolding load_from_path
  load_from_path-keeps_text path raw disk apart found =
      rw (found, load_from_path)
        (load_raw-raw path raw disk apart found, load_raw-get path raw disk)

-- What the `toml` crate does with a configuration that it has printed.
pub record ReadsBack (toml : Toml) : Type 0 where
  pub config :
      (cfg : AppConfig) (t : Text)
      → toml.to_string_pretty cfg ≡ ok t
      → toml.config_from_str t ≡ ok cfg
  pub value :
      (cfg : AppConfig) (t : Text)
      → toml.to_string_pretty cfg ≡ ok t
      → (v : toml.Value) × (toml.from_str t ≡ ok v)
        × (has_v2_pairs toml v ≡ not (is_empty cfg.sync_pairs))

append-is_empty : (ps : List SyncPair) (p : SyncPair) → is_empty (ps ++ p ∷ []) ≡ false
append-is_empty [] p = refl
append-is_empty (q ∷ ps) p = refl

migrate_v1-has_pairs :
    (toml : Toml) (v : toml.Value) (base cfg : AppConfig)
    → migrate_v1 toml v base ≡ (cfg, true)
    → is_empty cfg.sync_pairs ≡ false
unfolding migrate_v1
migrate_v1-has_pairs toml v base cfg h = elim (Option-cases (text_at toml v (codes "local_root"))) [
  | inl e ↦ ground (arith, e)
  | inr (root, e) ↦ ground (
    arith,
    e,
    append-is_empty base.sync_pairs (v1_pair toml root (text_at toml v (codes "remote_root"))),
  )
]

migrated-has_pairs :
    (toml : Toml) (raw : Text) (cfg : AppConfig)
    → parse_and_migrate toml raw ≡ ok (cfg, true)
    → is_empty cfg.sync_pairs ≡ false
unfolding parse_and_migrate
migrated-has_pairs toml raw cfg h = elim (Result-cases (toml.from_str raw)) [
  | inr (x, e) ↦ ground (arith, e)
  | inl (v, e) ↦ elim (Result-cases (toml.config_from_str raw)) [
    | inr (x, e') ↦ ground (arith, e, e')
    | inl (base, e') ↦ ground (arith, e, e', migrate_v1-has_pairs toml v base cfg)
  ]
]

-- A V1 file that was migrated is, once printed, read as a V2 file with the same content: it is not
-- migrated again.
pub parse_and_migrate-once :
    (toml : Toml) (raw printed : Text) (cfg : AppConfig)
    → ReadsBack toml
    → parse_and_migrate toml raw ≡ ok (cfg, true)
    → toml.to_string_pretty cfg ≡ ok printed
    → parse_and_migrate toml printed ≡ ok (cfg, false)
unfolding parse_and_migrate
parse_and_migrate-once toml raw printed cfg reads first print =
    let (v, parsed, pairs) = reads.value cfg printed print in
    ground
      (arith, reads.config cfg printed print, parsed, pairs, migrated-has_pairs toml raw cfg first)
