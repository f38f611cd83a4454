-- ===== src/Engine/Loop/Startup.antt =====
-- src/engine/mod.rs: the start of the engine, with and without a configuration, and the publisher
-- of the progress.
use syncgdrive.Base.{
  Text, codes, Bool, true, false, not, ◌&&◌, ltb, Option, none, some, List, [], ◌∷◌, ◌++◌, Result,
  ok, err, or_context, Act, pure, lift, gets, modify, when, attempt, ◌>>=◌, if◌then◌else◌,
}
use syncgdrive.Paths.{FilePath, parse}
use syncgdrive.Config.{
  AppConfig, SyncPair, ConfigError, no_pairs_configured, pair_name_empty, pair_local_empty,
  pair_local_missing, invalid_advanced, get_primary_pair, validate,
}
use syncgdrive.Engine.Errors.{is_shutdown_err}
use syncgdrive.Engine.Progress.{ProgressTracker, show, snapshot}
use syncgdrive.Engine.Status.{
  EngineCommand, EngineStatus, starting, unconfigured, idle, sync_progress, syncing, paused, error,
  settings, help,
}
use syncgdrive.Engine.Scan.{ScanState}
use syncgdrive.Engine.Loop.{
  Setting, Engine, Course, completes, cancels, receives, Signal, Flow, again, leave, notify, hold,
  scan_run, drop_scan,
}
use syncgdrive.Engine.Loop.Commands.{stop, then_again}
use syncgdrive.Engine.Loop.Events.{engine_loop, finish}

-- The statuses that `progress_publisher` sends at a tick.
unfoldable pub publish : ProgressTracker → List EngineStatus
unfolding snapshot
publish tracker =
    let snap = snapshot tracker in
    if ltb 0 snap.total_files && ltb snap.done_files snap.total_files
    then sync_progress snap ∷ []
    else []

module _ {R : Type 0} (setting : Setting R) where
  -- The state before the first scan.
  unfoldable pub new : ScanState R → Engine R
  new scan = record {
    scan = scan;
    cfg = setting.ctx_cfg;
    paused = false;
    rescan_on_resume = false;
    is_offline = false;
    shutdown = false;
    current_local_root = record { absolute = false; parts = [] };
    dispatchers = [];
    waiting = none;
    jobs = [];
    active = 0;
  }

  -- The initial scan ends.
  unfoldable pub end_initial : Result (Unit {0}) → Act (Engine R) Flow
  end_initial (ok _) = pure again
  end_initial (err e) =
      if is_shutdown_err e
      then pure leave
      else then_again (
          modify (λ l. record l { is_offline = true }) >>= λ _.
          notify (error (codes "Mode Hors-ligne (Scan initial échoué)")))

  -- The initial scan, which every opened window interrupts.
  unfoldable pub initial_scan : (Text → Bool) → Course → Act (Engine R) Flow
  initial_scan ignore completes = attempt (scan_run setting ignore) >>= end_initial
  initial_scan ignore cancels = drop_scan setting >>= λ _. stop
  initial_scan ignore (receives none rest) = drop_scan setting >>= λ _. stop
  initial_scan ignore (receives (some c) rest) =
      let later = initial_scan ignore rest in
      elim c [
        | EngineCommand.pause ↦ then_again (drop_scan setting >>= λ _. hold paused)
        | EngineCommand.open_settings ↦ then_again (drop_scan setting >>= λ _. hold settings)
        | EngineCommand.open_help ↦ then_again (drop_scan setting >>= λ _. hold help)
        | EngineCommand.shutdown ↦ drop_scan setting >>= λ _. stop
        | _ ↦ later
      ]

  -- The watcher and the dispatcher of the folder.
  unfoldable pub start_watching : SyncPair → Act (Engine R) (Unit {0})
  start_watching primary = lift (setting.watch (parse primary.local_path)) >>= λ _. modify λ l.
      record l {
        current_local_root = parse primary.local_path;
        dispatchers =
            record {
              debounce_ms = l.cfg.advanced.debounce_ms;
              local_root = parse primary.local_path;
            }
            ∷ [];
      }

  unfoldable pub run_with_provider : Course → List Signal → Act (Engine R) Flow
  run_with_provider course signals =
      lift (or_context (codes "Aucun dossier n'est configuré!") (get_primary_pair setting.ctx_cfg))
      >>= λ primary. lift (setting.from_patterns primary.ignore_patterns) >>= λ ignore.
          notify (starting 100) >>= λ _. notify (syncing 0) >>= λ _.
          initial_scan ignore course >>= λ flow. elim flow [
            | leave ↦ finish leave
            | again ↦ gets (λ l. not l.paused && not l.is_offline) >>= λ calm.
                when calm (notify idle) >>= λ _.
                start_watching primary >>= λ _. engine_loop setting signals >>= finish
          ]

  unfoldable pub run : Course → List Signal → Act (Engine R) Flow
  run course signals = notify (starting 25) >>= λ _.
      notify (starting 50) >>= λ _. notify (starting 75) >>= λ _. run_with_provider course signals

-- `ConfigError::to_string`
unfoldable pub error_text : ConfigError → Text
error_text no_pairs_configured =
    codes "aucune paire de synchronisation n'est configurée — ouvrez les réglages"
error_text (pair_name_empty i) = codes "la paire #" ++ show i ++ codes " a un nom vide"
error_text (pair_local_empty i) = codes "la paire #" ++ show i ++ codes " a un chemin local vide"
error_text (pair_local_missing i path) =
    codes "la paire #"
    ++ show i
    ++ codes " a un chemin local '"
    ++ path
    ++ codes "' qui n'existe pas ou n'est pas un répertoire"
error_text (invalid_advanced why) = codes "configuration avancée invalide: " ++ why

-- What `run_unconfigured` does with a command: it waits on, with the statuses to send, it stops, it
-- fails, or it starts an engine with a configuration and the flag of a simulation.
pub data Unconfigured : Type 0 where
  waits : List EngineStatus → Unconfigured
  stops : Unconfigured
  fails : Text → Unconfigured
  starts : AppConfig → Bool → Unconfigured

unfoldable pub unconfigured_command : (FilePath → Bool) → Option EngineCommand → Unconfigured
unconfigured_command is_dir none = stops
unconfigured_command is_dir (some c) = elim c [
  | EngineCommand.apply_config cfg ↦ elim (get_primary_pair cfg) [
    | none ↦ fails (codes "Aucun dossier n'est configuré!")
    | some primary ↦ elim (validate is_dir cfg) [
      | some e ↦ waits (unconfigured (error_text e) ∷ [])
      | none ↦ starts cfg false
    ]
  ]
  | EngineCommand.shutdown ↦ stops
  | _ ↦ waits []
]
