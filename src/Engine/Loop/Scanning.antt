-- ===== src/Engine/Loop/Scanning.antt =====
-- src/engine/mod.rs: what holds of the main loop's steps whatever a scan does to the shared state.
use syncgdrive.Base.{
  Text, Bool, true, not, ◌&&◌, Bool-cases, Option, none, some, List, Result, ok, err, Act, Keeps,
  bind-Keeps, when-Keeps, when, ◌>>=◌, inl, inr,
}
use syncgdrive.Config.{AppConfig, SyncPair}
use syncgdrive.Paths.{FilePath}
use syncgdrive.Engine.Errors.{is_shutdown_err}
use syncgdrive.Engine.Status.{EngineCommand, EngineStatus}
use syncgdrive.Engine.Scan.{ScanState}
use syncgdrive.Engine.Loop.{
  Setting, Engine, Dispatching, Course, current_ignore, drop_scan, completes, cancels, receives,
  notify, cancel, hold, end_scan, await_scan, start_scan,
}
use syncgdrive.Engine.Loop.Commands.{
  change_root, scan_root, enter_root, make_up, resume, apply_paused, apply_running, paused_command,
  running_command, pause_at, stop, then_again,
}
use syncgdrive.Engine.Loop.Events.{
  report_failure, back_online, gone_offline, answers, on_health_tick, end_rescan, on_rescan_tick,
  flush,
}

-- A preorder of states that nothing but the jobs and the phase can break.
module _ {R : Type 0} (P : Engine R → Engine R → Type 0) (P_refl : (l : Engine R) → P l l)
    (P_trans : (s t u : Engine R) → P s t → P t u → P s u)
    (scan-P : (l : Engine R) (scan : ScanState R) → P l (record l { scan = scan }))
    (config-P : (l : Engine R) (cfg : AppConfig) (root : FilePath) (ds : List Dispatching)
        (b : Bool)
      → P l (record l {
        cfg = cfg;
        current_local_root = root;
        dispatchers = ds;
        is_offline = b;
      })) where
  pub bind-P :
      {A B : Type 0} (m : Act (Engine R) A) (f : A → Act (Engine R) B)
      → Keeps P m
      → ((a : A) → Keeps P (f a))
      → Keeps P (m >>= f)
  bind-P = bind-Keeps P P_refl P_trans

  pub when-P : (b : Bool) (m : Act (Engine R) (Unit {0})) → Keeps P m → Keeps P (when b m)
  when-P = when-Keeps P P_refl P_trans

  module _ (setting : Setting R) where
    pub change_root-P : (root : FilePath) → Keeps P (change_root setting root)
    unfolding change_root
    change_root-P root =
        bind-P _ _ (λ l. config-P l _ _ _ _)
          λ _.
            bind-P _ _ (λ l. scan-P l _)
              λ _. bind-P _ _ (λ l. scan-P l _) λ _. bind-P _ _ P_refl λ _ l. config-P l _ _ _ _

    pub report_failure-P : (r : Result (Unit {0})) → Keeps P (report_failure setting r)
    unfolding report_failure
    report_failure-P (ok _) = P_refl
    report_failure-P (err e) =
        bind-P _ _ P_refl
          λ stopping. when-P (not (is_shutdown_err e) && not stopping) _ (λ l. scan-P l _)

    pub current_ignore-P : Keeps P (current_ignore setting)
    current_ignore-P = bind-P _ _ (bind-P _ _ P_refl λ _. P_refl) λ _. P_refl

    pub on_health_tick-P : Keeps P (on_health_tick setting)
    unfolding on_health_tick back_online gone_offline flush
    on_health_tick-P =
        bind-P _ _ (λ l. scan-P l _)
          λ health. elim (Bool-cases (answers setting health)) [
            | inl up ↦ rw up (
                bind-P _ _ (λ l. config-P l _ _ _ _)
                  λ was. when-P was _ (
                    bind-P _ _ (λ l. scan-P l _)
                      λ _.
                        bind-P _ _ (λ l. scan-P l _) λ _. bind-P _ _ (λ l. scan-P l _) λ _. P_refl))
            | inr down ↦
                rw down
                  (bind-P _ _ (λ l. config-P l _ _ _ _) λ was. when-P (not was) _ (λ l. scan-P l _))
          ]

    -- A scan may end the engine or hold it.
    module _ (cancel-P : (l : Engine R) → P l (record l { shutdown = true }))
        (hold-P : (l : Engine R) → P l (record l { paused = true; rescan_on_resume = true })) where
      pub end_scan-P : (r : Result (Unit {0})) → Keeps P (end_scan {R = R} r)
      unfolding end_scan
      end_scan-P (err e) = elim (Bool-cases (is_shutdown_err e)) [
        | inl down ↦ rw down cancel-P
        | inr other ↦ rw other (λ l. scan-P l _)
      ]
      end_scan-P (ok _) = bind-P _ _ P_refl λ empty. when-P empty _ (λ l. scan-P l _)

      hold_scan-P : (status : EngineStatus) → Keeps P (drop_scan setting >>= λ _. hold status)
      hold_scan-P status = bind-P _ _ (λ l. scan-P l _) λ _. bind-P _ _ hold-P λ _ l. scan-P l _

      cancel_scan-P : Keeps P (drop_scan setting >>= λ _. cancel)
      cancel_scan-P = bind-P _ _ (λ l. scan-P l _) λ _. cancel-P

      pub await_scan-P :
          (ignore : Text → Bool) (course : Course) → Keeps P (await_scan setting ignore course)
      unfolding await_scan
      await_scan-P ignore completes = bind-P _ _ (λ l. scan-P l _) end_scan-P
      await_scan-P ignore cancels = λ l. scan-P l _
      await_scan-P ignore (receives none rest) = cancel_scan-P
      await_scan-P ignore (receives (some EngineCommand.pause) rest) = hold_scan-P _
      await_scan-P ignore (receives (some EngineCommand.open_settings) rest) = hold_scan-P _
      await_scan-P ignore (receives (some EngineCommand.shutdown) rest) = cancel_scan-P
      await_scan-P ignore (receives (some EngineCommand.force_scan) rest) = await_scan-P ignore rest
      await_scan-P ignore (receives (some (EngineCommand.apply_config c)) rest) =
          await_scan-P ignore rest
      await_scan-P ignore (receives (some EngineCommand.resume) rest) = await_scan-P ignore rest
      await_scan-P ignore (receives (some EngineCommand.open_help) rest) = await_scan-P ignore rest

      pub start_scan-P : (course : Course) → Keeps P (start_scan setting course)
      unfolding start_scan
      start_scan-P course =
          bind-P _ _ (λ l. scan-P l _)
            λ _.
              bind-P _ _ (λ l. scan-P l _)
                λ _. bind-P _ _ current_ignore-P λ ignore. await_scan-P ignore course

      scan_root-P :
          (primary : SyncPair) (course : Course) → Keeps P (scan_root setting primary course)
      unfolding scan_root
      scan_root-P primary course = bind-P _ _ P_refl λ ignore.
          bind-P _ _ (λ l. scan-P l _)
            λ _. bind-P _ _ (λ l. scan-P l _) λ _. await_scan-P ignore course

      enter_root-P :
          (primary : SyncPair) (course : Course) → Keeps P (enter_root setting primary course)
      unfolding enter_root
      enter_root-P primary course =
          bind-P _ _ (change_root-P _)
            λ _. bind-P _ _ P_refl λ online. when-P online _ (scan_root-P primary course)

      pub apply_running-P :
          (c : AppConfig) (course : Course) → Keeps P (apply_running setting c course)
      unfolding apply_running
      apply_running-P c course = bind-P _ _ P_refl λ primary. bind-P _ _ P_refl λ changed.
          bind-P _ _ (λ l. config-P l _ _ _ _)
            λ _. bind-P _ _ (when-P changed _ (enter_root-P primary course)) λ _ l. scan-P l _

    -- Nor can a change of the flags break it.
    module _
        (flags-P : (l : Engine R) (p r d : Bool)
          → P l (record l { paused = p; rescan_on_resume = r; shutdown = d })) where
      stop-P : Keeps P (stop {R = R})
      stop-P = bind-P _ _ (λ l. flags-P l _ _ _) λ _. P_refl

      then_again-P : (m : Act (Engine R) (Unit {0})) → Keeps P m → Keeps P (then_again m)
      then_again-P m keeps = bind-P m _ keeps λ _. P_refl

      start-P : (course : Course) → Keeps P (start_scan setting course)
      start-P = start_scan-P (λ l. flags-P l _ _ _) (λ l. flags-P l _ _ _)

      resume-P : (course : Course) → Keeps P (resume setting course)
      unfolding resume make_up
      resume-P course =
          bind-P _ _ (λ l. flags-P l _ _ _)
            λ _. bind-P _ _ P_refl λ due.
              bind-P _ _ (when-P due _ (bind-P _ _ (λ l. flags-P l _ _ _) λ _. start-P course))
                λ _ l. scan-P l _

      apply_paused-P : (c : AppConfig) → Keeps P (apply_paused setting c)
      unfolding apply_paused
      apply_paused-P c = bind-P _ _ P_refl λ primary. bind-P _ _ P_refl λ changed.
          bind-P _ _ (λ l. P_trans _ _ _ (config-P l c _ _ _) (flags-P _ _ _ _))
            λ _. when-P changed _ (change_root-P _)

      show-P : (status : EngineStatus) → Keeps P (then_again (notify {R = R} status))
      show-P status = then_again-P _ (λ l. scan-P l _)

      pause_at-P : (status : EngineStatus) → Keeps P (then_again (pause_at {R = R} status))
      pause_at-P status = then_again-P _ (bind-P _ _ (λ l. flags-P l _ _ _) λ _ l. scan-P l _)

      pub paused_command-P :
          (c : Option EngineCommand) (k : Course) → Keeps P (paused_command setting c k)
      unfolding paused_command
      paused_command-P none k = stop-P
      paused_command-P (some EngineCommand.shutdown) k = stop-P
      paused_command-P (some EngineCommand.resume) k = then_again-P _ (resume-P k)
      paused_command-P (some (EngineCommand.apply_config c)) k = then_again-P _ (apply_paused-P c)
      paused_command-P (some EngineCommand.open_settings) k = show-P _
      paused_command-P (some EngineCommand.open_help) k = show-P _
      paused_command-P (some EngineCommand.pause) k = P_refl
      paused_command-P (some EngineCommand.force_scan) k = P_refl

      pub running_command-P :
          (c : Option EngineCommand) (k : Course) → Keeps P (running_command setting c k)
      unfolding running_command
      running_command-P none k = stop-P
      running_command-P (some EngineCommand.shutdown) k = stop-P
      running_command-P (some EngineCommand.resume) k = P_refl
      running_command-P (some (EngineCommand.apply_config c)) k =
          then_again-P _ (apply_running-P (λ l. flags-P l _ _ _) (λ l. flags-P l _ _ _) c k)
      running_command-P (some EngineCommand.open_settings) k = pause_at-P _
      running_command-P (some EngineCommand.open_help) k = pause_at-P _
      running_command-P (some EngineCommand.pause) k = pause_at-P _
      running_command-P (some EngineCommand.force_scan) k =
          bind-P _ _ P_refl λ online. then_again-P _ (when-P online _ (start-P k))

      end_rescan-P : (r : Result (Unit {0})) → Keeps P (end_rescan setting r)
      unfolding end_rescan
      end_rescan-P (err e) = elim (Bool-cases (is_shutdown_err e)) [
        | inl down ↦ rw down stop-P
        | inr other ↦ rw other (show-P _)
      ]
      end_rescan-P (ok _) =
          bind-P _ _ P_refl λ empty. then_again-P _ (when-P empty _ (λ l. scan-P l _))

      pub on_rescan_tick-P : (ends : Bool) → Keeps P (on_rescan_tick setting ends)
      unfolding on_rescan_tick
      on_rescan_tick-P ends = bind-P _ _ P_refl λ due. elim (Bool-cases due) [
        | inr early ↦ rw early P_refl
        | inl time ↦ rw time (
            bind-P _ _ (λ l. scan-P l _)
              λ _.
                bind-P _ _ (λ l. scan-P l _)
                  λ _. bind-P _ _ current_ignore-P λ ignore. elim (Bool-cases ends) [
                    | inl whole ↦ rw whole (bind-P _ _ (λ l. scan-P l _) end_rescan-P)
                    | inr cut ↦ rw cut (bind-P _ _ (λ l. scan-P l _) λ _. stop-P)
                  ])
      ]
