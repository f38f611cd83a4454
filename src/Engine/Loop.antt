-- ===== src/Engine/Loop.antt =====
-- src/engine/mod.rs, `SyncEngine`: the state of the main loop, what its `select!` receives, and a
-- scan that commands may interrupt. How far a scan has come when it is dropped is a parameter, as
-- are the glob set and the native watcher. The notifications and the delays are left out.
pub mod Commands
pub mod Events
pub mod Startup
pub mod Machine
pub mod Scanning
pub mod Phases
pub mod Lifecycle
pub mod Jobs
mod Examples
use syncgdrive.Base.{
  ℕ, ◌+◌, Text, codes, Bool, true, false, ◌||◌, Option, none, some, List, [], ◌∷◌, ◌++◌, ◌==◌,
  Result, ok, err, Error, or_context, Act, pure, lift, gets, modify, when, ◌>>=◌, if◌then◌else◌,
  attempt,
}
use syncgdrive.Paths.{FilePath}
use syncgdrive.Config.{AppConfig, get_primary_pair}
use syncgdrive.Engine.Errors.{is_shutdown_err}
use syncgdrive.Engine.Progress.{ProgressTracker}
use syncgdrive.Engine.Status.{EngineCommand, EngineStatus, syncing, idle, error, paused, settings}
use syncgdrive.Engine.Tasks.{Task}
use syncgdrive.Engine.Worker.{Environment, Provider, message}
use syncgdrive.Engine.Scan.{ScanState, Walk, report}
use syncgdrive.Engine.Scan.Queueing.{with_tracker}
use syncgdrive.Engine.Scan.Run.{run}

-- What lies outside, with the configuration that `ctx` keeps from the start.
pub record Setting (R : Type 0) : Type 0 where
  pub env : Environment
  pub walk : Walk
  pub provider : Provider R
  -- `IgnoreMatcher::from_patterns`
  pub from_patterns : List Text → Result (Text → Bool)
  -- `Watcher::start`
  pub watch : FilePath → Result (Unit {0})
  -- What a scan has done when it is dropped.
  pub cut : ScanState R → ScanState R
  pub ctx_cfg : AppConfig
  pub dry_run : Bool

-- A dispatcher that was started.
pub record Dispatching : Type 0 where
  pub debounce_ms : ℕ
  pub local_root : FilePath

-- A worker that was spawned.
pub record Job : Type 0 where
  pub task : Task
  pub cfg : AppConfig
  pub ignore_patterns : List Text

pub record Engine (R : Type 0) : Type 0 where
  pub scan : ScanState R
  pub cfg : AppConfig
  pub paused : Bool
  pub rescan_on_resume : Bool
  pub is_offline : Bool
  pub shutdown : Bool
  pub current_local_root : FilePath
  pub dispatchers : List Dispatching
  -- The task that waits for a permit.
  pub waiting : Option Task
  pub jobs : List Job
  pub active : ℕ

-- The course of a scan against the commands: it comes to its end, the token is cancelled, or a
-- command arrives, with what follows if that one is passed over.
pub data Course : Type 0 where
  completes : Course
  cancels : Course
  receives : Option EngineCommand → Course → Course

-- What a pass of the loop receives; a worker that ends is named by its place.
pub data Signal : Type 0 where
  cancelled : Signal
  command : Option EngineCommand → Course → Signal
  health_tick : Signal
  rescan_tick : Bool → Signal
  task : Option Task → Signal
  worked : ℕ → Signal

-- Whether the loop goes on.
pub data Flow : Type 0 where
  again : Flow
  leave : Flow

module _ {R : Type 0} where
  abbrev pub on_scan : {A : Type 0} → Act (ScanState R) A → Act (Engine R) A
  on_scan m l = let (r, scan) = m l.scan in (r, record l { scan = scan })

  -- `let _ = status_tx.send(…)`
  abbrev pub notify : EngineStatus → Act (Engine R) (Unit {0})
  notify status = on_scan (report status)

  abbrev pub reset_files : Act (Engine R) (Unit {0})
  reset_files = on_scan (modify (with_tracker (λ t. record t { total_files = 0 })))

  abbrev pub no_files : Engine R → Bool
  no_files l = l.scan.base.tracker.total_files == 0

  -- `shutdown.cancel()`
  abbrev pub cancel : Act (Engine R) (Unit {0})
  cancel = modify λ l. record l { shutdown = true }

  abbrev pub hold : EngineStatus → Act (Engine R) (Unit {0})
  hold status =
      modify (λ l. record l { paused = true; rescan_on_resume = true }) >>= λ _. notify status

  -- The first branch of `await_scan_interruptible!`, with the result of the scan.
  unfoldable pub end_scan : Result (Unit {0}) → Act (Engine R) (Unit {0})
  end_scan (err e) = if is_shutdown_err e then cancel else notify (error (message e))
  end_scan (ok _) = gets no_files >>= λ empty. when empty (notify idle)

module _ {R : Type 0} (setting : Setting R) where
  -- `scan::run(&ctx, &ignore, …)`
  abbrev pub scan_run : (Text → Bool) → Act (Engine R) (Unit {0})
  scan_run ignore = on_scan (
      run (record (setting.env) { is_match = ignore }) setting.walk setting.provider setting.ctx_cfg
        setting.dry_run)

  -- The future of a scan is dropped.
  abbrev pub drop_scan : Act (Engine R) (Unit {0})
  drop_scan = on_scan (modify setting.cut)

  -- `await_scan_interruptible!`
  unfoldable pub await_scan : (Text → Bool) → Course → Act (Engine R) (Unit {0})
  await_scan ignore completes = attempt (scan_run ignore) >>= end_scan
  await_scan ignore cancels = drop_scan
  await_scan ignore (receives none rest) = drop_scan >>= λ _. cancel
  await_scan ignore (receives (some c) rest) =
      let later = await_scan ignore rest in
      elim c [
        | EngineCommand.pause ↦ drop_scan >>= λ _. hold EngineStatus.paused
        | EngineCommand.open_settings ↦ drop_scan >>= λ _. hold settings
        | EngineCommand.shutdown ↦ drop_scan >>= λ _. cancel
        | _ ↦ later
      ]

  -- `IgnoreMatcher::from_patterns` of the active pair of the current configuration.
  abbrev pub current_ignore : Act (Engine R) (Text → Bool)
  current_ignore =
      gets (λ l. or_context (codes "Aucun dossier") (get_primary_pair l.cfg))
      >>= lift
      >>= λ primary. lift (setting.from_patterns primary.ignore_patterns)

  -- A scan that the loop starts.
  unfoldable pub start_scan : Course → Act (Engine R) (Unit {0})
  start_scan course = reset_files >>= λ _.
      notify (syncing 0) >>= λ _. current_ignore >>= λ ignore. await_scan ignore course
