-- ===== src/Engine/Loop/Jobs.antt =====
-- src/engine/mod.rs: the workers that run at a time.
use syncgdrive.Base.{
  ℕ, zero, suc, ◌+◌, ◌≤◌, Text, Bool, true, false, ltb, ltb→lt, Bool-cases, Option, none, some,
  Option-cases, List, [], ◌∷◌, length, length-append, Result, Result-cases, ok, err, Act, Keeps,
  bind-Keeps, when-Keeps, Always, bind-Always, arith, ◌>>=◌, ◌≡◌, ◌⊎◌, inl, inr, refl,
}
use syncgdrive.Config.{get_primary_pair}
use syncgdrive.Engine.Errors.{is_shutdown_err}
use syncgdrive.Engine.Tasks.{Task}
use syncgdrive.Engine.Scan.{ScanState}
use syncgdrive.Engine.Loop.{
  Setting, Engine, Job, Course, completes, cancels, receives, hold, drop_scan, Signal, Flow, again,
  leave,
}
use syncgdrive.Engine.Loop.Events.{
  permits, end_job, run_job, spawn, take_task, finish_job, nth_job, without_job, paused_step,
  running_step, waiting_step, step, engine_loop, finish,
}
use syncgdrive.Engine.Status.{EngineCommand, EngineStatus}
use syncgdrive.Engine.Loop.Commands.{stop, then_again, paused_command, running_command}
use syncgdrive.Engine.Loop.Scanning.{
  when-P, report_failure-P, paused_command-P, running_command-P, on_health_tick-P, on_rescan_tick-P,
}
use syncgdrive.Engine.Loop.Startup.{
  new, end_initial, initial_scan, start_watching, run_with_provider, run,
}

Flow-cases : (flow : Flow) → (flow ≡ again) ⊎ (flow ≡ leave)
Flow-cases again = inl refl
Flow-cases leave = inr refl

module _ {R : Type 0} (setting : Setting R) where
  -- No more workers than permits, and each of them counted.
  abbrev pub IsBounded : Engine R → Type 0
  IsBounded l = (length l.jobs ≤ permits setting) × (length l.jobs ≤ l.active)

  -- The same, with a worker that counts and is not in the list any more.
  abbrev IsSpare : Engine R → Type 0
  IsSpare l = (length l.jobs ≤ permits setting) × (length l.jobs + 1 ≤ l.active)

  abbrev Bound : Engine R → Engine R → Type 0
  Bound l l' = IsBounded l → IsBounded l'

  Bound-trans : (s t u : Engine R) → Bound s t → Bound t u → Bound s u
  Bound-trans s t u h k b = k (h b)

  abbrev Spare : Engine R → Engine R → Type 0
  Spare l l' = IsSpare l → IsSpare l'

  Spare-trans : (s t u : Engine R) → Spare s t → Spare t u → Spare s u
  Spare-trans s t u h k b = k (h b)

  IsSpare-IsBounded : (l : Engine R) → IsSpare l → IsBounded l
  IsSpare-IsBounded l (h, k) = (h, omega (arith, k))

  end_job-IsBounded : Always IsSpare (end_job {R = R}) IsBounded
  unfolding end_job
  end_job-IsBounded =
      bind-Always IsSpare IsSpare IsBounded _ _ IsSpare-IsBounded (λ l s. s)
        λ _.
          bind-Always IsSpare IsSpare IsBounded _ _ IsSpare-IsBounded (λ l s. s)
            λ last.
              bind-Always IsSpare IsBounded IsBounded _ _ (λ l b. b)
                (λ l s. (s.0, omega (arith, s.1)))
                λ _.
                  when-P Bound (λ l b. b) Bound-trans (λ l s b. b) (λ l _ _ _ _ b. b) last _
                    (λ l b. b)

  run_job-IsBounded : (job : Job) → Always IsSpare (run_job setting job) IsBounded
  unfolding run_job
  run_job-IsBounded job =
      bind-Always IsSpare IsSpare IsBounded _ _ IsSpare-IsBounded (λ l s. s)
        λ stopping. elim (Bool-cases stopping) [
          | inl now ↦ rw now end_job-IsBounded
          | inr go ↦ rw go (elim (Result-cases (setting.from_patterns job.ignore_patterns)) [
            | inl (ignore, fine) ↦ rw fine (
                bind-Always IsSpare IsSpare IsBounded _ _ IsSpare-IsBounded
                  (λ l s.
                    bind-Keeps Spare (λ l s. s) Spare-trans _ _ (λ l s. s)
                      (report_failure-P Spare (λ l s. s) Spare-trans (λ l _ s. s) (λ l _ _ _ _ s. s)
                        setting)
                      l s)
                  λ _. end_job-IsBounded)
            | inr (e, refused) ↦ rw refused IsSpare-IsBounded
          ])
        ]

  take_task-Bound : (task : Task) → Keeps Bound (take_task setting task)
  unfolding take_task spawn ◌>>=◌
  take_task-Bound task l b = elim (Bool-cases (ltb (length l.jobs) (permits setting))) [
    | inr full ↦ rw (take_task, ◌>>=◌, full) b
    | inl room ↦ elim (Option-cases (get_primary_pair l.cfg)) [
      | inl nothing ↦ rw (take_task, ◌>>=◌, room, spawn, nothing) b
      | inr (primary, active) ↦
          rw (take_task, ◌>>=◌, room, spawn, active)
            (let one = length-append l.jobs (
                record { task = task; cfg = l.cfg; ignore_patterns = primary.ignore_patterns }
                ∷ []) in
              let free = ltb→lt (length l.jobs) (permits setting) room in
              (omega (arith, one, free), omega (arith, one, b.1)))
    ]
  ]

  length-without_job :
      (n : ℕ) (jobs : List Job) (job : Job)
      → nth_job n jobs ≡ some job
      → length (without_job n jobs) + 1 ≡ length jobs
  length-without_job n [] job e = absurd (ground (arith, e))
  length-without_job zero (j ∷ jobs) job e = omega arith
  length-without_job (suc n) (j ∷ jobs) job e = omega (arith, length-without_job n jobs job e)

  finish_job-Bound : (n : ℕ) → Keeps Bound (finish_job setting n)
  unfolding finish_job
  finish_job-Bound n l b = elim (Option-cases (nth_job n l.jobs)) [
    | inl nothing ↦ rw (finish_job, nothing) b
    | inr (job, there) ↦
        rw (finish_job, there)
          (bind-Always (λ s. IsBounded s × (nth_job n s.jobs ≡ some job)) IsSpare IsBounded _ _
            IsSpare-IsBounded
            (λ s (c, here).
              let one = length-without_job n s.jobs job here in
              (omega (arith, one, c.0), omega (arith, one, c.1)))
            (λ _.
              bind-Always IsSpare IsBounded IsBounded _ _ (λ s b. b) (run_job-IsBounded job)
                λ _.
                  bind-Keeps Bound (λ s b. b) Bound-trans _ _ (λ s b. b)
                    λ waiting. elim (Option-cases waiting) [
                      | inl free ↦ rw free (λ s b. b)
                      | inr (task, stalls) ↦ rw stalls (
                          bind-Keeps Bound (λ s b. b) Bound-trans _ _ (λ s b. b)
                            λ _. take_task-Bound task)
                    ])
            l (b, there))
  ]

  again-Bound : (m : Act (Engine R) (Unit {0})) → Keeps Bound m → Keeps Bound (then_again m)
  again-Bound m keeps = bind-Keeps Bound (λ s b. b) Bound-trans m _ keeps λ _ s b. b

  stop-Bound : Keeps Bound (stop {R = R})
  stop-Bound = bind-Keeps Bound (λ s b. b) Bound-trans _ _ (λ s b. b) λ _ s b. b

  command-Bound :
      (paused : Bool) (c : Option EngineCommand) (k : Course)
      → Keeps Bound
          (elim paused [ true ↦ paused_command setting c k | false ↦ running_command setting c k ])
  command-Bound true c k =
      paused_command-P Bound (λ s b. b) Bound-trans (λ _ _ b. b) (λ _ _ _ _ _ b. b) setting
        (λ _ _ _ _ b. b) c k
  command-Bound false c k =
      running_command-P Bound (λ s b. b) Bound-trans (λ _ _ b. b) (λ _ _ _ _ _ b. b) setting
        (λ _ _ _ _ b. b) c k

  paused_step-Bound : (i : Signal) → Keeps Bound (paused_step setting i)
  unfolding paused_step
  paused_step-Bound Signal.cancelled = stop-Bound
  paused_step-Bound (Signal.command c k) = command-Bound true c k
  paused_step-Bound (Signal.worked n) = again-Bound _ (finish_job-Bound n)
  paused_step-Bound Signal.health_tick = λ s b. b
  paused_step-Bound (Signal.rescan_tick ends) = λ s b. b
  paused_step-Bound (Signal.task t) = λ s b. b

  running_step-Bound : (i : Signal) → Keeps Bound (running_step setting i)
  unfolding running_step
  running_step-Bound Signal.cancelled = stop-Bound
  running_step-Bound (Signal.command c k) = command-Bound false c k
  running_step-Bound (Signal.worked n) = again-Bound _ (finish_job-Bound n)
  running_step-Bound Signal.health_tick =
      again-Bound _
        (on_health_tick-P Bound (λ s b. b) Bound-trans (λ _ _ b. b) (λ _ _ _ _ _ b. b) setting)
  running_step-Bound (Signal.rescan_tick ends) =
      on_rescan_tick-P Bound (λ s b. b) Bound-trans (λ _ _ b. b) (λ _ _ _ _ _ b. b) setting
        (λ _ _ _ _ b. b) ends
  running_step-Bound (Signal.task none) = λ s b. b
  running_step-Bound (Signal.task (some t)) = again-Bound _ (take_task-Bound t)

  waiting_step-Bound : (i : Signal) → Keeps Bound (waiting_step setting i)
  unfolding waiting_step
  waiting_step-Bound Signal.cancelled = stop-Bound
  waiting_step-Bound (Signal.worked n) = again-Bound _ (finish_job-Bound n)
  waiting_step-Bound (Signal.command c k) = λ s b. b
  waiting_step-Bound Signal.health_tick = λ s b. b
  waiting_step-Bound (Signal.rescan_tick ends) = λ s b. b
  waiting_step-Bound (Signal.task t) = λ s b. b

  step-Bound : (i : Signal) → Keeps Bound (step setting i)
  unfolding step
  step-Bound i l b = elim (Bool-cases l.shutdown) [
    | inl down ↦ rw (step, down) b
    | inr up ↦ elim (Option-cases l.waiting) [
      | inr (task, stalls) ↦ rw (step, up, stalls) (waiting_step-Bound i l b)
      | inl free ↦ elim (Bool-cases l.paused) [
        | inl held ↦ rw (step, up, free, held) (paused_step-Bound i l b)
        | inr active ↦ rw (step, up, free, active) (running_step-Bound i l b)
      ]
    ]
  ]

  pub engine_loop-Bound : (signals : List Signal) → Keeps Bound (engine_loop setting signals)
  unfolding engine_loop
  engine_loop-Bound [] = λ s b. b
  engine_loop-Bound (i ∷ signals) =
      bind-Keeps Bound (λ s b. b) Bound-trans _ _ (step-Bound i)
        λ flow. elim (Flow-cases flow) [
          | inl more ↦ rw more (engine_loop-Bound signals)
          | inr over ↦ rw over (λ s b. b)
        ]

  bind-Bound :
      {A B : Type 0} (m : Act (Engine R) A) (f : A → Act (Engine R) B)
      → Keeps Bound m
      → ((a : A) → Keeps Bound (f a))
      → Keeps Bound (m >>= f)
  bind-Bound = bind-Keeps Bound (λ s b. b) Bound-trans

  end_initial-Bound : (r : Result (Unit {0})) → Keeps Bound (end_initial setting r)
  unfolding end_initial
  end_initial-Bound (ok _) = λ s b. b
  end_initial-Bound (err e) = elim (Bool-cases (is_shutdown_err e)) [
    | inl down ↦ rw down (λ s b. b)
    | inr other ↦ rw other (again-Bound _ (bind-Bound _ _ (λ s b. b) λ _ s b. b))
  ]

  initial_held-Bound :
      (status : EngineStatus) → Keeps Bound (then_again (drop_scan setting >>= λ _. hold status))
  initial_held-Bound status =
      again-Bound _ (bind-Bound _ _ (λ s b. b) λ _. bind-Bound _ _ (λ s b. b) λ _ s b. b)

  initial_scan-Bound :
      (ignore : Text → Bool) (course : Course) → Keeps Bound (initial_scan setting ignore course)
  unfolding initial_scan
  initial_scan-Bound ignore completes = bind-Bound _ _ (λ s b. b) end_initial-Bound
  initial_scan-Bound ignore cancels = bind-Bound _ _ (λ s b. b) λ _. stop-Bound
  initial_scan-Bound ignore (receives none rest) = bind-Bound _ _ (λ s b. b) λ _. stop-Bound
  initial_scan-Bound ignore (receives (some EngineCommand.pause) rest) = initial_held-Bound _
  initial_scan-Bound ignore (receives (some EngineCommand.open_settings) rest) =
      initial_held-Bound _
  initial_scan-Bound ignore (receives (some EngineCommand.open_help) rest) = initial_held-Bound _
  initial_scan-Bound ignore (receives (some EngineCommand.shutdown) rest) =
      bind-Bound _ _ (λ s b. b) λ _. stop-Bound
  initial_scan-Bound ignore (receives (some EngineCommand.force_scan) rest) =
      initial_scan-Bound ignore rest
  initial_scan-Bound ignore (receives (some (EngineCommand.apply_config c)) rest) =
      initial_scan-Bound ignore rest
  initial_scan-Bound ignore (receives (some EngineCommand.resume) rest) =
      initial_scan-Bound ignore rest

  finish-Bound : (flow : Flow) → Keeps Bound (finish {R = R} flow)
  unfolding finish
  finish-Bound again = λ s b. b
  finish-Bound leave = bind-Bound _ _ (λ s b. b) λ _ s b. b

  run_with_provider-Bound :
      (course : Course) (signals : List Signal)
      → Keeps Bound (run_with_provider setting course signals)
  unfolding run_with_provider start_watching
  run_with_provider-Bound course signals =
      bind-Bound _ _ (λ s b. b)
        λ primary.
          bind-Bound _ _ (λ s b. b)
            λ ignore.
              bind-Bound _ _ (λ s b. b)
                λ _.
                  bind-Bound _ _ (λ s b. b)
                    λ _. bind-Bound _ _ (initial_scan-Bound ignore course) λ flow.
                      elim (Flow-cases flow) [
                        | inr over ↦ rw over (finish-Bound leave)
                        | inl more ↦ rw more (
                            bind-Bound _ _ (λ s b. b)
                              λ calm.
                                bind-Bound _ _
                                  (when-Keeps Bound (λ s b. b) Bound-trans calm _ (λ s b. b))
                                  λ _.
                                    bind-Bound _ _ (bind-Bound _ _ (λ s b. b) λ _ s b. b)
                                      λ _. bind-Bound _ _ (engine_loop-Bound signals) finish-Bound)
                      ]

  -- Over every run of the engine, no more workers are at work than there are permits, and the count
  -- of the active ones does not fall short of them, so that its decrement never wraps.
  pub run-IsBounded :
      (course : Course) (signals : List Signal) (scan : ScanState R)
      → IsBounded (run setting course signals (new setting scan)).1
  unfolding run new
  run-IsBounded course signals scan =
      bind-Bound _ _ (λ s b. b)
        (λ _.
          bind-Bound _ _ (λ s b. b)
            λ _. bind-Bound _ _ (λ s b. b) λ _. run_with_provider-Bound course signals)
        (new setting scan) (omega arith, omega arith)
