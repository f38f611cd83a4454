-- ===== src/Engine/Loop/Lifecycle.antt =====
-- src/engine/mod.rs: the main loop as a machine of three phases.
use syncgdrive.Base.{
  ℕ, Bool, true, Bool-cases, Option, none, some, Option-cases, Result, Result-cases, ok, err, Keeps,
  Triple, arith, ◌≡◌, inl, inr, refl,
}
use syncgdrive.Engine.Errors.{is_shutdown_err}
use syncgdrive.Engine.Tasks.{Task}
use syncgdrive.Engine.Loop.{Setting, Engine, Job, Signal, Flow, again, leave}
use syncgdrive.Engine.Loop.Events.{
  end_job, run_job, spawn, take_task, finish_job, end_rescan, on_rescan_tick, nth_job, paused_step,
  running_step, waiting_step, step,
}
use syncgdrive.Engine.Loop.Machine.{
  Phase, active, held, phase, phase_after, heard_waiting, heard, Moves, ends, works, waits, takes,
  rescans, keeps,
}
use syncgdrive.Engine.Loop.Phases.{
  Still, Leads, bind-Still, when-Still, stop-Leads, leave-Leads, stutter, Still-then-Leads,
  Still-Leads, pure-Leads, on_health_tick-Still, report_failure-Still, paused_command-Leads,
  running_command-Leads,
}

module _ {R : Type 0} (setting : Setting R) where
  -- The steps that leave the phase as it is.
  end_job-Still : Keeps Still (end_job {R = R})
  unfolding end_job
  end_job-Still =
      bind-Still _ _ (λ l. refl)
        λ _.
          bind-Still _ _ (λ l. refl)
            λ last. bind-Still _ _ (λ l. refl) λ _. when-Still last _ (λ l. refl)

  run_job-Still : (job : Job) → Keeps Still (run_job setting job)
  unfolding run_job
  run_job-Still job =
      bind-Still _ _ (λ l. refl)
        λ stopping. elim (Bool-cases stopping) [
          | inl ends_now ↦ rw ends_now end_job-Still
          | inr go ↦ rw go (elim (Result-cases (setting.from_patterns job.ignore_patterns)) [
            | inl (ignore, fine) ↦ rw fine (
                bind-Still _ _ (bind-Still _ _ (λ l. refl) (report_failure-Still setting))
                  λ _. end_job-Still)
            | inr (e, refused) ↦ rw refused (λ l. refl)
          ])
        ]

  take_task-Still : (task : Task) → Keeps Still (take_task setting task)
  unfolding take_task spawn
  take_task-Still task =
      bind-Still _ _ (λ l. refl)
        λ free. elim (Bool-cases free) [
          | inl room ↦ rw room (bind-Still _ _ (bind-Still _ _ (λ l. refl) λ _ l. refl) λ _ l. refl)
          | inr full ↦ rw full (λ l. refl)
        ]

  finish_job-Still : (n : ℕ) → Keeps Still (finish_job setting n)
  unfolding finish_job
  finish_job-Still n l = elim (Option-cases (nth_job n l.jobs)) [
    | inl nothing ↦ rw (finish_job, nothing) refl
    | inr (job, there) ↦
        rw (finish_job, there)
          (bind-Still _ _ (λ l. refl)
            (λ _. bind-Still _ _ (run_job-Still job) λ _.
              bind-Still _ _ (λ l. refl)
                λ waiting. elim (Option-cases waiting) [
                  | inl none_waits ↦ rw none_waits (λ l. refl)
                  | inr (task, waits_here) ↦
                      rw waits_here (bind-Still _ _ (λ l. refl) λ _. take_task-Still task)
                ])
            l)
  ]

  end_rescan-Leads :
      (b r : Bool) (result : Result (Unit {0}))
      → Leads (Signal.rescan_tick b) (active r) (end_rescan setting result)
  unfolding end_rescan
  end_rescan-Leads b r (err e) = elim (Bool-cases (is_shutdown_err e)) [
    | inl down ↦ rw down (stop-Leads _ (active r))
    | inr other ↦ rw other (Still-Leads _ (active r) _ (rescans b r) (λ l. refl))
  ]
  end_rescan-Leads b r (ok _) =
      Still-then-Leads _ (active r) _ _ (λ l. refl)
        λ empty. Still-Leads _ (active r) _ (rescans b r) (when-Still empty _ (λ l. refl))

  on_rescan_tick-Leads :
      (b r : Bool) → Leads (Signal.rescan_tick b) (active r) (on_rescan_tick setting b)
  unfolding on_rescan_tick
  on_rescan_tick-Leads b r =
      Still-then-Leads _ (active r) _ _ (λ l. refl)
        λ due. elim (Bool-cases due) [
          | inr early ↦ rw early (pure-Leads _ (active r) (rescans b r))
          | inl time ↦ rw time (
              Still-then-Leads _ (active r) _ _ (λ l. refl)
                λ _.
                  Still-then-Leads _ (active r) _ _ (λ l. refl)
                    λ _.
                      Still-then-Leads _ (active r) _ _
                        (bind-Still _ _ (bind-Still _ _ (λ l. refl) λ _ l. refl) λ _ l. refl)
                        λ ignore. elim (Bool-cases b) [
                          | inl whole ↦ rw whole (
                              Still-then-Leads _ (active r) _ _ (λ l. refl)
                                (end_rescan-Leads true r))
                          | inr cut ↦ rw cut (
                              Still-then-Leads _ (active r) _ _ (λ l. refl)
                                λ _. stop-Leads _ (active r))
                        ])
        ]

  paused_step-Leads : (i : Signal) (r : Bool) → Leads i (held r) (paused_step setting i)
  unfolding paused_step
  paused_step-Leads Signal.cancelled r = stop-Leads _ (held r)
  paused_step-Leads (Signal.command c k) r = paused_command-Leads setting c k r
  paused_step-Leads (Signal.worked n) r =
      Still-Leads _ (held r) _ (works n (held r)) (finish_job-Still n)
  paused_step-Leads Signal.health_tick r = pure-Leads _ (held r) (keeps _ r refl)
  paused_step-Leads (Signal.rescan_tick b) r = pure-Leads _ (held r) (keeps _ r refl)
  paused_step-Leads (Signal.task t) r = pure-Leads _ (held r) (keeps _ r refl)

  running_step-Leads : (i : Signal) (r : Bool) → Leads i (active r) (running_step setting i)
  unfolding running_step
  running_step-Leads Signal.cancelled r = stop-Leads _ (active r)
  running_step-Leads (Signal.command c k) r = running_command-Leads setting c k r
  running_step-Leads (Signal.worked n) r =
      Still-Leads _ (active r) _ (works n (active r)) (finish_job-Still n)
  running_step-Leads Signal.health_tick r =
      Still-Leads _ (active r) _ (waits r) (on_health_tick-Still setting)
  running_step-Leads (Signal.rescan_tick b) r = on_rescan_tick-Leads b r
  running_step-Leads (Signal.task none) r = leave-Leads _ (active r)
  running_step-Leads (Signal.task (some t)) r =
      Still-Leads _ (active r) _ (takes t r) (take_task-Still t)

  -- While a task waits for a permit, the loop passes over all but the workers and the token.
  waiting_step-Moves :
      (i : Signal) (p : Phase)
      → Triple
          (λ l. phase l ≡ p)
          (waiting_step setting i)
          (λ flow l. Moves (heard_waiting i) p (phase_after flow l))
  unfolding waiting_step
  waiting_step-Moves Signal.cancelled p = stop-Leads _ p
  waiting_step-Moves (Signal.worked n) p = Still-Leads _ p _ (works n p) (finish_job-Still n)
  waiting_step-Moves (Signal.command c k) p = stutter p
  waiting_step-Moves Signal.health_tick p = stutter p
  waiting_step-Moves (Signal.rescan_tick b) p = stutter p
  waiting_step-Moves (Signal.task t) p = stutter p

  left :
      (i : Option Signal) (p : Phase) (l : Engine R) (flow : Flow)
      → ok leave ≡ ok flow
      → Moves i p (phase_after flow l)
  left i p l leave e = ends i p
  left i p l again e = absurd (ground (arith, e))

  -- One pass of the loop, whatever it receives, moves the engine between the phases as the
  -- machine allows for what it hears.
  pub step-Moves :
      (signal : Signal) (l : Engine R) (flow : Flow)
      → (step setting signal l).0 ≡ ok flow
      → Moves (heard l signal) (phase l) (phase_after flow (step setting signal l).1)
  unfolding step
  step-Moves signal l flow = elim (Bool-cases l.shutdown) [
    | inl down ↦ rw (down, step) (left _ _ l flow)
    | inr up ↦ elim (Option-cases l.waiting) [
      | inr (task, waits_here) ↦
          rw (step, up, waits_here) (waiting_step-Moves signal _ l (rw up refl) flow)
      | inl nothing ↦ elim (Bool-cases l.paused) [
        | inl at_rest ↦
            rw (step, up, nothing, at_rest)
              (paused_step-Leads signal l.rescan_on_resume l (rw (up, at_rest) refl) flow)
        | inr at_work ↦
            rw (step, up, nothing, at_work)
              (running_step-Leads signal l.rescan_on_resume l (rw (up, at_work) refl) flow)
      ]
    ]
  ]
