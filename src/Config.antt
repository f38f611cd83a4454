-- ===== src/Config.antt =====
-- src/config.rs: the data of the configuration, its defaults and its validation. A `PathBuf` of the
-- configuration is kept as its text.
pub mod Load
pub mod Validation
pub mod Migration
pub mod Tilde
mod Examples
use syncgdrive.Base.{
  ℕ, zero, suc, ◌+◌, Text, codes, is_empty, Bool, true, false, not, ◌&&◌, ◌||◌, Option, none, some,
  List, [], ◌∷◌, leb, ◌==◌, if◌then◌else◌,
}
use syncgdrive.Paths.{FilePath, parse}

pub record RetryConfig : Type 0 where
  pub max_attempts : ℕ
  pub initial_backoff_ms : ℕ
  pub max_backoff_ms : ℕ

abbrev pub default_retry : RetryConfig
default_retry = record { max_attempts = 3; initial_backoff_ms = 300; max_backoff_ms = 8000 }

pub record AdvancedConfig : Type 0 where
  pub debounce_ms : ℕ
  pub health_check_interval_secs : ℕ
  pub max_concurrent_ls : ℕ
  pub shutdown_timeout_secs : ℕ
  pub log_retention_days : ℕ
  pub engine_channel_capacity : ℕ
  pub notification_timeout_ms : ℕ
  pub resumable_upload_threshold : ℕ
  pub upload_limit_kbps : ℕ
  pub api_rate_limit_rps : ℕ
  pub delete_mode : Text
  pub symlink_mode : Text
  pub api_base : Text
  pub upload_base : Text
  pub chunk_threshold : ℕ

abbrev pub default_advanced : AdvancedConfig
default_advanced = record {
  debounce_ms = 500;
  health_check_interval_secs = 30;
  max_concurrent_ls = 8;
  shutdown_timeout_secs = 3;
  log_retention_days = 7;
  engine_channel_capacity = 1024;
  notification_timeout_ms = 6000;
  resumable_upload_threshold = 5242880;
  upload_limit_kbps = 0;
  api_rate_limit_rps = 10;
  delete_mode = codes "trash";
  symlink_mode = codes "ignore";
  api_base = codes "https://www.googleapis.com/drive/v3";
  upload_base = codes "https://www.googleapis.com/upload/drive/v3";
  chunk_threshold = 5242880;
}

pub record SyncPair : Type 0 where
  pub name : Text
  pub local_path : Text
  pub remote_folder_id : Text
  pub provider : Text
  pub active : Bool
  pub ignore_patterns : List Text

abbrev pub default_provider : Text
default_provider = codes "GoogleDrive"

pub record AppConfig : Type 0 where
  pub max_workers : ℕ
  pub notifications : Bool
  pub rescan_interval_min : ℕ
  pub retry : RetryConfig
  pub advanced : AdvancedConfig
  pub sync_pairs : List SyncPair

-- `#[derive(Default)]`: the numbers are 0 and the list is empty; the `serde` defaults of the fields
-- play no part in it.
abbrev pub default_config : AppConfig
default_config = record {
  max_workers = 0;
  notifications = false;
  rescan_interval_min = 0;
  retry = default_retry;
  advanced = default_advanced;
  sync_pairs = [];
}

pub data ConfigError : Type 0 where
  no_pairs_configured : ConfigError
  pair_name_empty : ℕ → ConfigError
  pair_local_empty : ℕ → ConfigError
  pair_local_missing : ℕ → Text → ConfigError
  invalid_advanced : Text → ConfigError

-- `AdvancedConfig::validate`: none where it returns `Ok`.
unfoldable pub validate_advanced : AdvancedConfig → Option ConfigError
validate_advanced a =
    if a.engine_channel_capacity == 0
    then some (invalid_advanced (codes "engine_channel_capacity doit être > 0"))
    else if a.max_concurrent_ls == 0
    then some (invalid_advanced (codes "max_concurrent_ls doit être > 0"))
    else if a.api_rate_limit_rps == 0
    then some (invalid_advanced (codes "api_rate_limit_rps doit être > 0"))
    else none

-- `char::is_whitespace`
unfoldable pub is_whitespace : ℕ → Bool
is_whitespace c =
    (leb 9 c && leb c 13)
    || c == 32
    || c == 0x85
    || c == 0xA0
    || c == 0x1680
    || (leb 0x2000 c && leb c 0x200A)
    || (leb 0x2028 c && leb c 0x2029)
    || c == 0x202F
    || c == 0x205F
    || c == 0x3000

-- `s.trim().is_empty()`
unfoldable pub is_blank : Text → Bool
unfolding is_whitespace
is_blank [] = true
is_blank (c ∷ s) = is_whitespace c && is_blank s

module _ (is_dir : FilePath → Bool) where
  -- The body of the loop over the pairs.
  unfoldable pub validate_pair : ℕ → SyncPair → Option ConfigError
  validate_pair i pair =
      if is_blank pair.name
      then some (pair_name_empty i)
      else if is_empty pair.local_path
      then some (pair_local_empty i)
      else if pair.active && not (is_dir (parse pair.local_path))
      then some (pair_local_missing i pair.local_path)
      else none

  unfoldable pub validate_pairs : ℕ → List SyncPair → Option ConfigError
  validate_pairs i [] = none
  validate_pairs i (pair ∷ pairs) = elim (validate_pair i pair) [
    | some e ↦ some e
    | none ↦ validate_pairs (suc i) pairs
  ]

  -- `AppConfig::validate`
  unfoldable pub validate : AppConfig → Option ConfigError
  validate cfg = elim (validate_advanced cfg.advanced) [
    | some e ↦ some e
    | none ↦
        if is_empty cfg.sync_pairs
        then some no_pairs_configured
        else validate_pairs 0 cfg.sync_pairs
  ]

  unfoldable pub is_valid : AppConfig → Bool
  is_valid cfg = elim (validate cfg) [ none ↦ true | some e ↦ false ]

-- The first active pair.
unfoldable pub first_active : List SyncPair → Option SyncPair
first_active [] = none
first_active (p ∷ ps) = if p.active then some p else first_active ps

unfoldable pub get_primary_pair : AppConfig → Option SyncPair
unfolding first_active
get_primary_pair cfg = first_active cfg.sync_pairs
