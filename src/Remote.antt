-- ===== src/Remote.antt =====
-- src/remote/mod.rs: the data that a remote provider exchanges with the engine, and its contract.
pub mod PathCache
pub mod GDrive
use syncgdrive.Base.{ℕ, Text, Bool, Option, List, Result}

pub record RemoteFile : Type 0 where
  pub relative_path : Text
  pub drive_id : Text
  pub parent_id : Text
  pub md5 : Text
  pub size : ℕ
  pub modified_time : ℕ

pub record RemoteDir : Type 0 where
  pub relative_path : Text
  pub drive_id : Text
  pub parent_id : Text

pub record RemoteIndex : Type 0 where
  pub files : List RemoteFile
  pub dirs : List RemoteDir

pub record UploadResult : Type 0 where
  pub drive_id : Text
  pub md5_checksum : Text
  pub size_bytes : ℕ

pub data Change : Type 0 where
  modified : Text → Text → Text → Change
  deleted : Text → Change

pub record ChangesPage : Type 0 where
  pub changes : List Change
  pub new_cursor : Text
  pub has_more : Bool

pub data HealthStatus : Type 0 where
  healthy : Text → ℕ → ℕ → HealthStatus
  auth_expired : HealthStatus
  unreachable : HealthStatus
