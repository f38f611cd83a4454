-- ===== src/Config/Load.antt =====
-- src/config.rs: loading, migrating and saving the configuration. The `toml` and `serde` crates are
-- the parameter `toml`. The disk is a map from the texts of paths to contents; the parameter `os`
-- says which writes fail and what the variable HOME holds.
use syncgdrive.Base.{
  Text, codes, text_eq, is_empty, starts_with, Bool, true, false, not, ◌||◌, Option, none, some,
  List, [], ◌∷◌, ◌++◌, Dict, get, put, Result, ok, err, context, ◌==◌, if◌then◌else◌, Act, pure,
  fail, lift, when, ◌>>=◌, ◌>>◌,
}
use syncgdrive.Paths.{FilePath, parse, render, join, parent, file_name, init_parts}
use syncgdrive.Config.{AppConfig, SyncPair, default_config, default_provider, is_blank}

pub record Toml : Type 1 where
  pub Value : Type 0
  pub from_str : Text → Result Value
  pub get_key : Value → Text → Option Value
  pub as_array : Value → Option (List Value)
  pub as_str : Value → Option Text
  pub config_from_str : Text → Result AppConfig
  pub to_string_pretty : AppConfig → Result Text

pub record Os : Type 0 where
  pub can_create_dir : FilePath → Bool
  pub can_write : Text → Bool
  pub home : Option Text

abbrev pub Disk : Type 0
Disk = Dict Text

-- `expand_tilde`: none where the slice `&s[2..]` is out of range, which is a panic.
unfoldable pub drop_two : Text → Option Text
drop_two (a ∷ b ∷ s) = some s
drop_two s = none

unfoldable pub expand_tilde : Option Text → Text → Option Text
unfolding drop_two starts_with text_eq
expand_tilde home s =
    if starts_with s (codes "~/") || text_eq s (codes "~")
    then (elim (drop_two s) [
      | some rest ↦
          some (render (join (parse (elim home [ some h ↦ h | none ↦ codes "." ])) (parse rest)))
      | none ↦ none
    ])
    else some s

-- The loop over the pairs.
unfoldable pub expand_pairs : Option Text → List SyncPair → Option (List SyncPair)
expand_pairs home [] = some []
expand_pairs home (p ∷ ps) = elim (expand_tilde home p.local_path) [
  | none ↦ none
  | some path ↦ elim (expand_pairs home ps) [
    | none ↦ none
    | some qs ↦ some (record p { local_path = path } ∷ qs)
  ]
]

unfoldable pub expand_tildes : Option Text → AppConfig → Option AppConfig
expand_tildes home cfg = elim (expand_pairs home cfg.sync_pairs) [
  | none ↦ none
  | some pairs ↦ some (record cfg { sync_pairs = pairs })
]

-- `Path::with_extension`, for a file name that has no leading dot of its own.
unfoldable pub before_last_dot : Text → Option Text
before_last_dot [] = none
before_last_dot (c ∷ s) = elim (before_last_dot s) [
  | some b ↦ some (c ∷ b)
  | none ↦ if c == b'.' then some [] else none
]

unfoldable pub file_stem : Text → Text
unfolding before_last_dot
file_stem name = elim (before_last_dot name) [
  | none ↦ name
  | some b ↦ if is_empty b then name else b
]

unfoldable pub with_extension : Text → Text → Text
unfolding file_stem parse render file_name
with_extension path extension =
    let p = parse path in
    elim (file_name p) [
      | none ↦ path
      | some name ↦ render (record p {
        parts = init_parts p.parts ++ (file_stem name ++ codes "." ++ extension) ∷ [];
      })
    ]

abbrev pub backup_path : Text → Text
backup_path path = with_extension path (codes "v1.bak")

module _ (toml : Toml) where
  open toml use {Value, from_str, get_key, as_array, as_str, config_from_str}

  -- The key's text, if it is there and is a string.
  abbrev pub text_at : Value → Text → Option Text
  text_at v key = elim (get_key v key) [ none ↦ none | some w ↦ as_str w ]

  unfoldable pub has_v2_pairs : Value → Bool
  has_v2_pairs v = elim (get_key v (codes "sync_pairs")) [
    | none ↦ false
    | some w ↦ elim (as_array w) [ none ↦ false | some pairs ↦ not (is_empty pairs) ]
  ]

  -- The pair that a V1 file describes.
  unfoldable pub v1_pair : Text → Option Text → SyncPair
  v1_pair local_root remote_root = record {
    name = codes "Sync principal";
    local_path = local_root;
    remote_folder_id = elim remote_root [ none ↦ [] | some id ↦ id ];
    provider = default_provider;
    active = true;
    ignore_patterns = [];
  }

  unfoldable pub migrate_v1 : Value → AppConfig → AppConfig × Bool
  unfolding v1_pair
  migrate_v1 v cfg = elim (text_at v (codes "local_root")) [
    | none ↦ (cfg, false)
    | some local_root ↦ if is_blank local_root then (cfg, false) else (
      record cfg {
        sync_pairs = cfg.sync_pairs ++ v1_pair local_root (text_at v (codes "remote_root")) ∷ [];
      },
      true,
    )
  ]

  unfoldable pub parse_and_migrate : Text → Result (AppConfig × Bool)
  parse_and_migrate raw_toml = elim (context (codes "Fichier TOML invalide") (from_str raw_toml)) [
    | err e ↦ err e
    | ok v ↦ elim (config_from_str raw_toml) [
      | err e ↦ err e
      | ok cfg ↦ if has_v2_pairs v then ok (cfg, false) else ok (migrate_v1 v cfg)
    ]
  ]

module _ (toml : Toml) (os : Os) where
  abbrev pub write : Text → Text → Act Disk (Unit {0})
  write path contents disk = elim (os.can_write path) [
    | true ↦ (ok tt, put disk path contents)
    | false ↦ (err (codes "write" ∷ []), disk)
  ]

  -- `create_dir_all(parent)?`
  abbrev pub create_parent : Text → Act Disk (Unit {0})
  create_parent path disk = elim (parent (parse path)) [
    | none ↦ (ok tt, disk)
    | some dir ↦ elim (os.can_create_dir dir) [
      | true ↦ (ok tt, disk)
      | false ↦ (err (codes "create_dir_all" ∷ []), disk)
    ]
  ]

  unfoldable pub save_to_path : AppConfig → Text → Act Disk (Unit {0})
  save_to_path cfg path = do
    create_parent path
    printed ← lift (context (codes "Erreur sérialisation V2") (toml.to_string_pretty cfg))
    write path printed

  -- What is done with the text that the file holds.
  unfoldable pub load_raw : Text → Text → Act Disk (AppConfig × Bool)
  load_raw path raw = do
    parsed ← lift (parse_and_migrate toml raw)
    when (parsed.1) (do write (backup_path path) raw; save_to_path parsed.0 path)
    elim (expand_tildes os.home parsed.0) [
      | none ↦ fail (codes "panicked: byte index 2 is out of bounds" ∷ [])
      | some cfg ↦ pure (cfg, false)
    ]

  unfoldable pub load_from_path : Text → Act Disk (AppConfig × Bool)
  load_from_path path disk = elim (get disk path) [
    | none ↦
        (do create_parent path; save_to_path default_config path; pure (default_config, true)) disk
    | some raw ↦ load_raw path raw disk
  ]
