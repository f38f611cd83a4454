-- ===== src/Config/Examples.antt =====
-- Concrete configurations.
use syncgdrive.Base.{
  ◌+◌, ◌≡◌, ◌≢◌, refl, ◌↔◌, ◌⊎◌, Text, codes, text_eq, Bool, true, none, some, List, [], ◌∷◌, ◌++◌,
  All, length, get, ok, arith, if◌then◌else◌,
}
use syncgdrive.Paths.{FilePath}
use syncgdrive.Config.{
  AppConfig, SyncPair, pair_name_empty, default_config, default_provider, validate, validate_pairs,
  is_blank, is_whitespace, validate_pair,
}
use syncgdrive.Config.Load.{
  Toml, Os, Disk, backup_path, with_extension, expand_tildes, load_from_path,
}
use syncgdrive.Config.Validation.{IsSound, IsUsable, Blames, validate_iff, validate_pairs-Blames}
use syncgdrive.Config.Tilde.{HasBareTilde, expand_tildes-panics_iff}
use syncgdrive.Config.Migration.{load_from_path-keeps_text}

abbrev pair : Text → SyncPair
pair name = record {
  name = name;
  local_path = codes "~/Drive";
  remote_folder_id = codes "r";
  provider = default_provider;
  active = true;
  ignore_patterns = [];
}

abbrev sample : AppConfig
sample = record default_config { sync_pairs = pair (codes "one") ∷ pair (codes " ") ∷ [] }

abbrev any_dir : FilePath → Bool
any_dir p = true

validate_iff_example : (validate any_dir sample ≡ none) ↔ (
    IsSound sample.advanced × (sample.sync_pairs ≢ []) × All (IsUsable any_dir) sample.sync_pairs)
validate_iff_example = validate_iff any_dir sample

validate_pairs-Blames_example :
    (before after : List SyncPair) × (p : SyncPair) × (sample.sync_pairs ≡ before ++ p ∷ after)
    × All (IsUsable any_dir) before
    × Blames any_dir (pair_name_empty 1) (0 + length before) p
unfolding validate_pairs validate_pair is_blank is_whitespace
validate_pairs-Blames_example =
    validate_pairs-Blames any_dir 0 sample.sync_pairs (pair_name_empty 1) refl

expand_tildes-panics_iff_example :
    (expand_tildes (some (codes "/home/u")) sample ≡ none) ↔ HasBareTilde sample.sync_pairs
expand_tildes-panics_iff_example = expand_tildes-panics_iff (some (codes "/home/u")) sample

-- A format with two texts: the old one names a local root, the new one holds a pair.
abbrev v1_text : Text
v1_text = codes "1"

abbrev toml : Toml
toml = record {
  Value = Text;
  from_str = λ t. ok t;
  get_key = λ v key.
      if text_eq v v1_text
      then if text_eq key (codes "local_root") then some (codes "/data") else none
      else if text_eq key (codes "sync_pairs")
      then some v
      else none;
  as_array = λ v. some (v ∷ []);
  as_str = λ v. some v;
  config_from_str = λ t. if text_eq t v1_text then ok default_config else ok sample;
  to_string_pretty = λ cfg. ok (codes "2");
}

abbrev os : Os
os = record { can_create_dir = λ p. true; can_write = λ p. text_eq p (codes "c.toml"); home = none }

abbrev disk : Disk
disk = (codes "c.toml", v1_text) ∷ []

backup_path_c : backup_path (codes "c.toml") ≡ codes "c.v1.bak"
unfolding with_extension
backup_path_c = refl

load_from_path-keeps_text_example :
    ((get (load_from_path toml os (codes "c.toml") disk).1 (codes "c.toml") ≡ some v1_text)
      ⊎ (get (load_from_path toml os (codes "c.toml") disk).1 (backup_path (codes "c.toml"))
          ≡ some v1_text))
    × ((k : Text)
        → k ≢ codes "c.toml"
        → k ≢ backup_path (codes "c.toml")
        → get (load_from_path toml os (codes "c.toml") disk).1 k ≡ get disk k)
unfolding get text_eq
load_from_path-keeps_text_example =
    load_from_path-keeps_text toml os (codes "c.toml") v1_text disk
      (rw backup_path_c (λ e. ground arith)) refl
