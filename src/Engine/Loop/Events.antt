-- ===== src/Engine/Loop/Events.antt =====
-- src/engine/mod.rs: what else the main loop receives, the workers it spawns, and one pass of it.
use syncgdrive.Base.{
  ℕ, zero, suc, ◌+◌, ◌-◌, max, codes, Bool, true, false, not, ◌&&◌, ◌||◌, ltb, ◌==◌, length, Option,
  none, some, List, [], ◌∷◌, ◌++◌, Result, ok, err, or_context, Act, pure, lift, gets, modify, when,
  attempt, ◌>>=◌, if◌then◌else◌,
}
use syncgdrive.Config.{get_primary_pair}
use syncgdrive.Remote.{HealthStatus, healthy, auth_expired, unreachable}
use syncgdrive.Engine.Errors.{is_shutdown_err}
use syncgdrive.Engine.Offline.{flush_queue}
use syncgdrive.Engine.Progress.{fetch_add}
use syncgdrive.Engine.Status.{idle, error, stopped, syncing}
use syncgdrive.Engine.Tasks.{Task}
use syncgdrive.Engine.Worker.{message, on_remote}
use syncgdrive.Engine.Worker.Tasks.{handle}
use syncgdrive.Engine.Scan.{on_base}
use syncgdrive.Engine.Scan.Queueing.{with_tracker}
use syncgdrive.Engine.Loop.{
  Setting, Engine, Job, Signal, Flow, again, leave, on_scan, notify, reset_files, no_files,
  scan_run, drop_scan, current_ignore,
}
use syncgdrive.Engine.Loop.Commands.{stop, then_again, paused_command, running_command}

abbrev pub nth_job : ℕ → List Job → Option Job
nth_job n [] = none
nth_job zero (job ∷ jobs) = some job
nth_job (suc n) (job ∷ jobs) = nth_job n jobs

abbrev pub without_job : ℕ → List Job → List Job
without_job n [] = []
without_job zero (job ∷ jobs) = jobs
without_job (suc n) (job ∷ jobs) = job ∷ without_job n jobs

module _ {R : Type 0} where
  -- `offline::flush_queue(&db, &task_tx, &current_local_root)`
  unfoldable pub flush : Act (Engine R) (Unit {0})
  flush l =
      let (r, f) =
        flush_queue l.current_local_root
          (record { db = l.scan.base.db; channel = l.scan.channel }) in
      (
        r,
        record l {
          scan = record (l.scan) { base = record (l.scan.base) { db = f.db }; channel = f.channel };
        },
      )

  -- `is_offline.swap(value)`
  abbrev pub swap_offline : Bool → Act (Engine R) Bool
  swap_offline value l = (ok l.is_offline, record l { is_offline = value })

  -- The end of a worker: its file counts as done, and the last one to end reports.
  unfoldable pub end_job : Act (Engine R) (Unit {0})
  end_job =
      on_scan (modify (with_tracker (λ t. record t { done_files = fetch_add t.done_files 1 })))
      >>= λ _. gets (λ l. l.active == 1) >>= λ last.
          modify (λ l. record l { active = l.active - 1 }) >>= λ _. when last (notify idle)

  -- `finish`
  unfoldable pub finish : Flow → Act (Engine R) Flow
  finish again = pure again
  finish leave = notify stopped >>= λ _. pure leave

module _ {R : Type 0} (setting : Setting R) where
  abbrev pub is_cancelled : Engine R → Bool
  is_cancelled l = l.shutdown || setting.env.cancelled l.scan.base.clock

  -- What a worker reports of its task.
  unfoldable pub report_failure : Result (Unit {0}) → Act (Engine R) (Unit {0})
  report_failure (ok _) = pure tt
  report_failure (err e) = gets is_cancelled >>= λ stopping.
      when (not (is_shutdown_err e) && not stopping) (notify (error (message e)))

  -- A worker, from its start to its end. A list of patterns that is refused makes it panic, which
  -- leaves the counters as they are.
  unfoldable pub run_job : Job → Act (Engine R) (Unit {0})
  run_job job = gets is_cancelled >>= λ stopping. elim stopping [
    | true ↦ end_job
    | false ↦ elim (setting.from_patterns job.ignore_patterns) [
      | err e ↦ pure tt
      | ok ignore ↦
          attempt (
            on_scan (
              on_base (
                handle (record (setting.env) { is_match = ignore }) setting.provider job.cfg
                  setting.dry_run job.task)))
          >>= report_failure
          >>= λ _. end_job
    ]
  ]

  -- `Semaphore::new(self.cfg.max_workers.max(1))`, with the configuration of the start.
  abbrev pub permits : ℕ
  permits = max setting.ctx_cfg.max_workers 1

  unfoldable pub spawn : Task → Act (Engine R) (Unit {0})
  spawn task =
      gets (λ l. or_context (codes "Aucun dossier") (get_primary_pair l.cfg))
      >>= lift
      >>= λ primary. modify λ l. record l {
        active = l.active + 1;
        jobs =
            l.jobs
            ++ record { task = task; cfg = l.cfg; ignore_patterns = primary.ignore_patterns } ∷ [];
      }

  -- A task is received: it waits where no permit is free.
  unfoldable pub take_task : Task → Act (Engine R) (Unit {0})
  take_task task = gets (λ l. ltb (length l.jobs) permits) >>= λ free. elim free [
    | true ↦ spawn task
    | false ↦ modify λ l. record l { waiting = some task }
  ]

  -- A worker ends, and the task that waits gets its permit.
  unfoldable pub finish_job : ℕ → Act (Engine R) (Unit {0})
  finish_job n l = elim (nth_job n l.jobs) [
    | none ↦ (ok tt, l)
    | some job ↦
        (modify (λ l. record l { jobs = without_job n l.jobs }) >>= λ _. run_job job >>= λ _.
        gets (λ l. l.waiting) >>= λ waiting. elim waiting [
          | none ↦ pure tt
          | some task ↦ modify (λ l. record l { waiting = none }) >>= λ _. take_task task
        ])
          l
  ]

  -- The network answers again.
  unfoldable pub back_online : Act (Engine R) (Unit {0})
  back_online = swap_offline false >>= λ was_offline. when was_offline (
      attempt (on_scan (on_base (on_remote setting.provider.refresh_auth))) >>= λ _.
      notify idle >>= λ _. attempt flush >>= λ _. pure tt)

  unfoldable pub gone_offline : Act (Engine R) (Unit {0})
  gone_offline = swap_offline true >>= λ was_offline.
      when (not was_offline) (notify (error (codes "Réseau indisponible (Mode Hors-ligne)")))

  abbrev pub answers : Result HealthStatus → Bool
  answers (ok (healthy email used total)) = true
  answers (ok auth_expired) = true
  answers (ok unreachable) = false
  answers (err e) = false

  unfoldable pub on_health_tick : Act (Engine R) (Unit {0})
  on_health_tick =
      attempt (on_scan (on_base (on_remote setting.provider.check_health))) >>= λ health.
      elim (answers health) [ true ↦ back_online | false ↦ gone_offline ]

  -- The end of a scan that the tick started.
  unfoldable pub end_rescan : Result (Unit {0}) → Act (Engine R) Flow
  end_rescan (err e) = if is_shutdown_err e then stop else then_again (notify (error (message e)))
  end_rescan (ok _) = gets no_files >>= λ empty. then_again (when empty (notify idle))

  -- False for a token that is cancelled before the scan ends.
  unfoldable pub on_rescan_tick : Bool → Act (Engine R) Flow
  on_rescan_tick ends =
      gets (λ l. ltb 0 setting.ctx_cfg.rescan_interval_min && not l.is_offline) >>= λ due.
      elim due [
        | false ↦ pure again
        | true ↦ reset_files >>= λ _. notify (syncing 0) >>= λ _.
            current_ignore setting >>= λ ignore. elim ends [
              | true ↦ attempt (scan_run setting ignore) >>= end_rescan
              | false ↦ drop_scan setting >>= λ _. stop
            ]
      ]

  -- A pass in pause: nothing else is received.
  unfoldable pub paused_step : Signal → Act (Engine R) Flow
  paused_step Signal.cancelled = stop
  paused_step (Signal.command c course) = paused_command setting c course
  paused_step (Signal.worked n) = then_again (finish_job n)
  paused_step Signal.health_tick = pure again
  paused_step (Signal.rescan_tick ends) = pure again
  paused_step (Signal.task t) = pure again

  unfoldable pub running_step : Signal → Act (Engine R) Flow
  running_step Signal.cancelled = stop
  running_step (Signal.command c course) = running_command setting c course
  running_step (Signal.worked n) = then_again (finish_job n)
  running_step Signal.health_tick = then_again on_health_tick
  running_step (Signal.rescan_tick ends) = on_rescan_tick ends
  running_step (Signal.task none) = pure leave
  running_step (Signal.task (some t)) = then_again (take_task t)

  -- A pass that waits for a permit.
  unfoldable pub waiting_step : Signal → Act (Engine R) Flow
  waiting_step Signal.cancelled = stop
  waiting_step (Signal.worked n) = then_again (finish_job n)
  waiting_step (Signal.command c course) = pure again
  waiting_step Signal.health_tick = pure again
  waiting_step (Signal.rescan_tick ends) = pure again
  waiting_step (Signal.task t) = pure again

  -- One pass: `shutdown.cancelled()` comes first.
  unfoldable pub step : Signal → Act (Engine R) Flow
  step signal l = elim l.shutdown [
    | true ↦ (ok leave, l)
    | false ↦ elim l.waiting [
      | some task ↦ waiting_step signal l
      | none ↦ elim l.paused [ true ↦ paused_step signal l | false ↦ running_step signal l ]
    ]
  ]

  -- The loop over what it receives; `again` where it still runs.
  unfoldable pub engine_loop : List Signal → Act (Engine R) Flow
  engine_loop [] = pure again
  engine_loop (signal ∷ signals) =
      step signal >>= λ flow. elim flow [ again ↦ engine_loop signals | leave ↦ pure leave ]
