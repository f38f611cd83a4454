-- ===== src/Engine/Loop/Commands.antt =====
-- src/engine/mod.rs: the commands that the main loop receives, in pause and out of it.
use syncgdrive.Base.{
  codes, Bool, true, false, not, ◌&&◌, Option, none, some, [], ◌∷◌, ◌++◌, or_context, Act, pure,
  lift, gets, modify, when, ◌>>=◌,
}
use syncgdrive.Paths.{FilePath, parse}
use syncgdrive.Config.{AppConfig, SyncPair, get_primary_pair}
use syncgdrive.Db.{clear, clear_dirs}
use syncgdrive.Engine.Dispatch.{path_eq}
use syncgdrive.Engine.Status.{EngineCommand, EngineStatus, idle, paused, settings, help, syncing}
use syncgdrive.Engine.Worker.{on_db}
use syncgdrive.Engine.Scan.{on_base}
use syncgdrive.Engine.Loop.{
  Setting, Engine, Course, Flow, again, leave, on_scan, notify, reset_files, cancel, await_scan,
  start_scan,
}

module _ {R : Type 0} where
  abbrev pub then_again : Act (Engine R) (Unit {0}) → Act (Engine R) Flow
  then_again m = m >>= λ _. pure again

  abbrev pub stop : Act (Engine R) Flow
  stop = cancel >>= λ _. pure leave

  -- The loop enters a pause.
  abbrev pub pause_at : EngineStatus → Act (Engine R) (Unit {0})
  pause_at status = modify (λ l. record l { paused = true }) >>= λ _. notify status

module _ {R : Type 0} (setting : Setting R) where
  -- The index of the old folder is dropped, and the new one is watched.
  unfoldable pub change_root : FilePath → Act (Engine R) (Unit {0})
  change_root root = modify (λ l. record l { current_local_root = root }) >>= λ _.
      on_scan (on_base (on_db clear)) >>= λ _. on_scan (on_base (on_db clear_dirs)) >>= λ _.
      lift (setting.watch root) >>= λ _. modify λ l. record l {
        dispatchers =
            l.dispatchers
            ++ record { debounce_ms = l.cfg.advanced.debounce_ms; local_root = root } ∷ [];
      }

  abbrev pub root_changes : FilePath → Engine R → Bool
  root_changes root l = not (path_eq root l.current_local_root)

  -- The scan that a resumption makes up for.
  unfoldable pub make_up : Course → Act (Engine R) (Unit {0})
  make_up course =
      modify (λ l. record l { rescan_on_resume = false }) >>= λ _. start_scan setting course

  -- `Resume`
  unfoldable pub resume : Course → Act (Engine R) (Unit {0})
  resume course = modify (λ l. record l { paused = false }) >>= λ _.
      gets (λ l. l.rescan_on_resume && not l.is_offline) >>= λ rescan.
      when rescan (make_up course) >>= λ _. notify idle

  -- `ApplyConfig` in pause.
  unfoldable pub apply_paused : AppConfig → Act (Engine R) (Unit {0})
  apply_paused new_cfg =
      lift (or_context (codes "Aucun dossier n'est configuré!") (get_primary_pair new_cfg))
      >>= λ new_primary. gets (root_changes (parse new_primary.local_path)) >>= λ root_changed.
          modify (λ l. record l { cfg = new_cfg; rescan_on_resume = true }) >>= λ _.
          when root_changed (change_root (parse new_primary.local_path))

  -- A scan of a folder that is new.
  unfoldable pub scan_root : SyncPair → Course → Act (Engine R) (Unit {0})
  scan_root primary course = lift (setting.from_patterns primary.ignore_patterns) >>= λ ignore.
      reset_files >>= λ _. notify (syncing 0) >>= λ _. await_scan setting ignore course

  unfoldable pub enter_root : SyncPair → Course → Act (Engine R) (Unit {0})
  enter_root primary course = change_root (parse primary.local_path) >>= λ _.
      gets (λ l. not l.is_offline) >>= λ online. when online (scan_root primary course)

  -- `ApplyConfig` out of a pause.
  unfoldable pub apply_running : AppConfig → Course → Act (Engine R) (Unit {0})
  apply_running new_cfg course =
      lift (or_context (codes "Pas de dossier") (get_primary_pair new_cfg)) >>= λ new_primary.
      gets (root_changes (parse new_primary.local_path)) >>= λ root_changed.
      modify (λ l. record l { cfg = new_cfg }) >>= λ _.
      when root_changed (enter_root new_primary course) >>= λ _. notify idle

  unfoldable pub paused_command : Option EngineCommand → Course → Act (Engine R) Flow
  paused_command none course = stop
  paused_command (some EngineCommand.resume) course = then_again (resume course)
  paused_command (some EngineCommand.shutdown) course = stop
  paused_command (some (EngineCommand.apply_config cfg)) course = then_again (apply_paused cfg)
  paused_command (some EngineCommand.open_settings) course = then_again (notify settings)
  paused_command (some EngineCommand.open_help) course = then_again (notify help)
  paused_command (some EngineCommand.pause) course = pure again
  paused_command (some EngineCommand.force_scan) course = pure again

  unfoldable pub running_command : Option EngineCommand → Course → Act (Engine R) Flow
  running_command none course = stop
  running_command (some EngineCommand.shutdown) course = stop
  running_command (some EngineCommand.pause) course = then_again (pause_at paused)
  running_command (some EngineCommand.resume) course = pure again
  running_command (some EngineCommand.force_scan) course =
      gets (λ l. not l.is_offline) >>= λ online.
      then_again (when online (start_scan setting course))
  running_command (some (EngineCommand.apply_config cfg)) course =
      then_again (apply_running cfg course)
  running_command (some EngineCommand.open_help) course = then_again (pause_at help)
  running_command (some EngineCommand.open_settings) course = then_again (pause_at settings)
