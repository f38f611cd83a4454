-- ===== src/Engine/Status.antt =====
-- src/engine/mod.rs: the commands that the engine takes, and the statuses that it reports.
use syncgdrive.Base.{ℕ, Text}
use syncgdrive.Config.{AppConfig}
use syncgdrive.Engine.Progress.{ProgressSnapshot}

pub data EngineCommand : Type 0 where
  force_scan : EngineCommand
  shutdown : EngineCommand
  apply_config : AppConfig → EngineCommand
  pause : EngineCommand
  resume : EngineCommand
  open_settings : EngineCommand
  open_help : EngineCommand

pub data ScanPhase : Type 0 where
  remote_listing : ScanPhase
  local_listing : ScanPhase
  directories : ScanPhase
  comparing : ScanPhase

pub data EngineStatus : Type 0 where
  starting : ℕ → EngineStatus
  unconfigured : Text → EngineStatus
  idle : EngineStatus
  scan_progress : ScanPhase → ℕ → ℕ → Text → EngineStatus
  sync_progress : ProgressSnapshot → EngineStatus
  syncing : ℕ → EngineStatus
  paused : EngineStatus
  error : Text → EngineStatus
  stopped : EngineStatus
  settings : EngineStatus
  help : EngineStatus
