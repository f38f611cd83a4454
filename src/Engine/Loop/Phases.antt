-- ===== src/Engine/Loop/Phases.antt =====
-- src/engine/mod.rs: the phases that the commands lead to.
use syncgdrive.Base.{
  Bool, true, false, Bool-cases, Option, none, some, Result, ok, Act, Keeps, bind-Keeps, when-Keeps,
  Triple, bind-Triple, arith, when, pure, ◌>>=◌, ◌≡◌, ◌⊎◌, inl, inr, refl, ◌∙◌, ap,
}
use syncgdrive.Config.{AppConfig}
use syncgdrive.Paths.{FilePath, parse}
use syncgdrive.Engine.Status.{EngineCommand, EngineStatus}
use syncgdrive.Engine.Loop.{Setting, Engine, Course, Signal, Flow, again, leave, start_scan}
use syncgdrive.Engine.Loop.Commands.{
  change_root, make_up, resume, apply_paused, apply_running, paused_command, running_command,
  pause_at, stop, then_again,
}
use syncgdrive.Engine.Loop.Events.{report_failure, on_health_tick}
use syncgdrive.Engine.Loop.Scanning.{
  start_scan-P, apply_running-P, change_root-P, on_health_tick-P, report_failure-P,
}
use syncgdrive.Engine.Loop.Machine.{
  Phase, active, held, ended, phase, phase_after, Moves, stutters, ends, is_awake, pauses,
  opens_settings, opens_help, scans, scan_interrupted, applies, apply_interrupted, resumes,
  makes_up, resume_interrupted, marks, keeps,
}

-- What a scan may make of the phase.
abbrev pub From : {R : Type 0} → Phase → Engine R → Type 0
From p l = (phase l ≡ p) ⊎ ((phase l ≡ held true) ⊎ (phase l ≡ ended))

abbrev pub After : {R : Type 0} → Engine R → Engine R → Type 0
After l l' = From (phase l) l'

abbrev pub Still : {R : Type 0} → Engine R → Engine R → Type 0
Still l l' = phase l' ≡ phase l

module _ {R : Type 0} where
  pub After-trans : (s t u : Engine R) → After s t → After t u → After s u
  After-trans s t u h (inr k) = inr k
  After-trans s t u (inl h) (inl k) = inl (k ∙ h)
  After-trans s t u (inr (inl h)) (inl k) = inr (inl (k ∙ h))
  After-trans s t u (inr (inr h)) (inl k) = inr (inr (k ∙ h))

  pub From-start : (l l' : Engine R) (p : Phase) → phase l ≡ p → After l l' → From p l'
  From-start l l' p h (inl e) = inl (e ∙ h)
  From-start l l' p h (inr e) = inr e

  pub phase_paused :
      (l : Engine R) (r : Bool) → phase l ≡ active r → phase (record l { paused = true }) ≡ held r
  phase_paused l r h = ground (arith, h)

  pub phase_resumed :
      (l : Engine R) (r : Bool) → phase l ≡ held r → phase (record l { paused = false }) ≡ active r
  phase_resumed l r h = ground (arith, h)

  pub phase_cleared :
      (l : Engine R) (r : Bool)
      → phase l ≡ active r
      → phase (record l { rescan_on_resume = false }) ≡ active false
  phase_cleared l r h = ground (arith, h)

  pub active_mark : (l : Engine R) (r : Bool) → phase l ≡ active r → l.rescan_on_resume ≡ r
  active_mark l r h = ground (arith, h)

  pub phase_marked :
      (l : Engine R) (c : AppConfig) (r : Bool)
      → phase l ≡ held r
      → phase (record l { cfg = c; rescan_on_resume = true }) ≡ held true
  phase_marked l c r h = ground (arith, h)

  pub Still-trans : (s t u : Engine R) → Still s t → Still t u → Still s u
  Still-trans s t u h k = k ∙ h

  pub bind-Still :
      {A B : Type 0} (m : Act (Engine R) A) (f : A → Act (Engine R) B)
      → Keeps Still m
      → ((a : A) → Keeps Still (f a))
      → Keeps Still (m >>= f)
  bind-Still = bind-Keeps Still (λ s. refl) Still-trans

  pub when-Still :
      (b : Bool) (m : Act (Engine R) (Unit {0})) → Keeps Still m → Keeps Still (when b m)
  when-Still = when-Keeps Still (λ s. refl) Still-trans

  pub After-hold : (l : Engine R) → After l (record l { paused = true; rescan_on_resume = true })
  After-hold l = elim (Bool-cases l.shutdown) [
    | inl down ↦ rw down (inr (inr refl))
    | inr up ↦ rw up (inr (inl refl))
  ]

  abbrev pub Leads : Signal → Phase → Act (Engine R) Flow → Type 0
  Leads i p m = Triple (λ l. phase l ≡ p) m (λ flow l. Moves (some i) p (phase_after flow l))

  pub stop-Leads : (i : Signal) (p : Phase) → Leads i p stop
  unfolding ◌>>=◌
  stop-Leads i p l h leave e = ends (some i) p
  stop-Leads i p l h again e = absurd (ground (arith, e))

  pub leave-Leads : (i : Signal) (p : Phase) → Leads i p (pure leave)
  leave-Leads i p l h leave e = ends (some i) p
  leave-Leads i p l h again e = absurd (ground (arith, e))

  pub stutter :
      (p : Phase)
      → Triple
          (λ l. phase l ≡ p)
          (pure again)
          (λ flow (l : Engine R). Moves none p (phase_after flow l))
  stutter p l h again e = rw h (stutters p)
  stutter p l h leave e = absurd (ground (arith, e))

  pub Still-then-Leads :
      {A : Type 0} (i : Signal) (p : Phase) (m : Act (Engine R) A) (f : A → Act (Engine R) Flow)
      → Keeps Still m
      → ((a : A) → Leads i p (f a))
      → Leads i p (m >>= f)
  Still-then-Leads i p m f still next =
      bind-Triple _ (λ _ l. phase l ≡ p) (λ flow l. Moves (some i) p (phase_after flow l)) m f
        (λ l h a e. still l ∙ h) next

  -- What holds of the phase holds after `again`.
  pub again-Leads :
      (i : Signal) (p : Phase) (l : Engine R)
      → Moves (some i) p (phase l)
      → (flow : Flow) → ok again ≡ ok flow
      → Moves (some i) p (phase_after flow l)
  again-Leads i p l moves again e = moves
  again-Leads i p l moves leave e = ends (some i) p

  -- A command after which the loop goes on, where a scan may have run.
  pub After-Leads :
      (i : Signal) (p : Phase) (m : Act (Engine R) (Unit {0}))
      → Moves (some i) p p
      → Moves (some i) p (held true)
      → Keeps After m
      → Leads i p (then_again m)
  After-Leads i p m same interrupted after =
      bind-Triple _ (λ _ l. From p l) (λ flow l. Moves (some i) p (phase_after flow l)) m _
        (λ l h a e. From-start l (m l).1 p h (after l))
        λ _ l from. again-Leads i p l (elim from [
          | inl e ↦ rw e same
          | inr (inl e) ↦ rw e interrupted
          | inr (inr e) ↦ rw e (ends (some i) p)
        ])

  -- A step that leaves the phase as it is.
  pub Still-Leads :
      (i : Signal) (p : Phase) (m : Act (Engine R) (Unit {0}))
      → Moves (some i) p p
      → Keeps Still m
      → Leads i p (then_again m)
  Still-Leads i p m same still =
      bind-Triple _ (λ _ l. phase l ≡ p) (λ flow l. Moves (some i) p (phase_after flow l)) m _
        (λ l h a e. still l ∙ h) λ _ l e. again-Leads i p l (rw e same)

  pub pure-Leads : (i : Signal) (p : Phase) → Moves (some i) p p → Leads i p (pure again)
  pure-Leads i p same l h = again-Leads i p l (rw h same)

  -- A command that pauses.
  pub pause_at-Leads :
      (i : Signal) (r : Bool) (status : EngineStatus)
      → Moves (some i) (active r) (held r)
      → Leads i (active r) (then_again (pause_at status))
  unfolding ◌>>=◌
  pause_at-Leads i r status pausing =
      bind-Triple _ (λ _ l. phase l ≡ held r)
        (λ flow l. Moves (some i) (active r) (phase_after flow l)) (pause_at status) _
        (λ l h a e. phase_paused l r h) λ _ l e. again-Leads i (active r) l (rw e pausing)

  module _ (setting : Setting R) where
    pub start_scan-After : (course : Course) → Keeps After (start_scan setting course)
    start_scan-After =
        start_scan-P After (λ l. inl refl) After-trans (λ _ _. inl refl) (λ _ _ _ _ _. inl refl)
          setting (λ l. inr (inr refl)) After-hold

    pub apply_running-After :
        (c : AppConfig) (course : Course) → Keeps After (apply_running setting c course)
    apply_running-After =
        apply_running-P After (λ l. inl refl) After-trans (λ _ _. inl refl) (λ _ _ _ _ _. inl refl)
          setting (λ l. inr (inr refl)) After-hold

    pub when_online-After :
        (b : Bool) (course : Course) → Keeps After (when b (start_scan setting course))
    when_online-After b course =
        when-Keeps After (λ l. inl refl) After-trans b (start_scan setting course)
          (start_scan-After course)

    pub change_root-Still : (root : FilePath) → Keeps Still (change_root setting root)
    change_root-Still =
        change_root-P Still (λ l. refl) Still-trans (λ _ _. refl) (λ _ _ _ _ _. refl) setting

    pub on_health_tick-Still : Keeps Still (on_health_tick setting)
    on_health_tick-Still =
        on_health_tick-P Still (λ l. refl) Still-trans (λ _ _. refl) (λ _ _ _ _ _. refl) setting

    pub report_failure-Still : (r : Result (Unit {0})) → Keeps Still (report_failure setting r)
    report_failure-Still =
        report_failure-P Still (λ l. refl) Still-trans (λ _ _. refl) (λ _ _ _ _ _. refl) setting

    -- What a resumption may make of a pause.
    abbrev pub Resumed : Bool → Engine R → Type 0
    Resumed r l = (phase l ≡ active r) ⊎ ((r ≡ true) × From (active false) l)

    pub make_up-Resumed :
        (course : Course)
        → Triple (λ l. phase l ≡ active true) (make_up setting course) (λ _. From (active false))
    unfolding make_up
    make_up-Resumed course =
        bind-Triple _ (λ _ l. phase l ≡ active false) (λ _. From (active false)) _ _
          (λ l h a e. phase_cleared l true h)
          λ _ l h a e.
            From-start l (start_scan setting course l).1 (active false) h
              (start_scan-After course l)

    pub when_due-Resumed :
        (course : Course) (r rescan : Bool)
        → Triple
            (λ l. (phase l ≡ active r) × (rescan ≡ true → r ≡ true))
            (when rescan (make_up setting course))
            (λ _. Resumed r)
    when_due-Resumed course r false l (h, marked) a e = inl h
    when_due-Resumed course r true l (h, marked) a e =
        inr (marked refl, make_up-Resumed course l (h ∙ ap active (marked refl)) a e)

    pub resume-Resumed :
        (course : Course) (r : Bool)
        → Triple (λ l. phase l ≡ held r) (resume setting course) (λ _. Resumed r)
    unfolding resume
    resume-Resumed course r =
        let all = λ (_ : Unit {0}). λ (l : Engine R). Resumed r l in
        bind-Triple _ (λ _ l. phase l ≡ active r) all _ _ (λ l h a e. phase_resumed l r h)
          λ _.
            bind-Triple _ (λ rescan l. (phase l ≡ active r) × (rescan ≡ true → r ≡ true)) all _ _
              (λ l h rescan e. (h, λ due. ground (arith, active_mark l r h, e, due)))
              λ rescan. bind-Triple _ all all _ _ (when_due-Resumed course r rescan) λ _ l h a e. h

    pub resumed-Moves :
        (k : Course) (r : Bool) (l : Engine R)
        → Resumed r l
        → Moves (some (Signal.command (some EngineCommand.resume) k)) (held r) (phase l)
    resumed-Moves k r l (inl e) = rw e (resumes k r)
    resumed-Moves k r l (inr (marked, inl e)) = rw (marked, e) (makes_up k)
    resumed-Moves k r l (inr (marked, inr (inl e))) = rw (marked, e) (resume_interrupted k)
    resumed-Moves k r l (inr (marked, inr (inr e))) = rw e (ends _ (held r))

    pub resume-Leads :
        (k : Course) (r : Bool)
        → Leads
            (Signal.command (some EngineCommand.resume) k)
            (held r)
            (then_again (resume setting k))
    resume-Leads k r =
        let i = Signal.command (some EngineCommand.resume) k in
        bind-Triple _ (λ _. Resumed r) (λ flow l. Moves (some i) (held r) (phase_after flow l)) _ _
          (resume-Resumed k r) λ _ l h. again-Leads i (held r) l (resumed-Moves k r l h)

    pub apply_paused-Leads :
        (c : AppConfig) (k : Course) (r : Bool)
        → Leads
            (Signal.command (some (EngineCommand.apply_config c)) k)
            (held r)
            (then_again (apply_paused setting c))
    unfolding apply_paused
    apply_paused-Leads c k r =
        let i = Signal.command (some (EngineCommand.apply_config c)) k in
        let all = λ (_ : Unit {0}). λ (l : Engine R). phase l ≡ held true in
        bind-Triple _ all (λ flow l. Moves (some i) (held r) (phase_after flow l)) _ _
          (bind-Triple _ (λ _ l. phase l ≡ held r) all _ _ (λ l h a e. h)
            λ primary.
              bind-Triple _ (λ _ l. phase l ≡ held r) all _ _ (λ l h a e. h)
                λ changed.
                  bind-Triple _ (λ _ l. phase l ≡ held true) all _ _
                    (λ l h a e. phase_marked l c r h)
                    λ _ l h a e.
                      when-Still changed (change_root setting (parse primary.local_path))
                        (change_root-Still (parse primary.local_path)) l
                      ∙ h)
          λ _ l e. again-Leads i (held r) l (rw e (marks c k r))

    pub paused_command-Leads :
        (c : Option EngineCommand) (k : Course) (r : Bool)
        → Leads (Signal.command c k) (held r) (paused_command setting c k)
    unfolding paused_command
    paused_command-Leads none k r = stop-Leads _ (held r)
    paused_command-Leads (some EngineCommand.shutdown) k r = stop-Leads _ (held r)
    paused_command-Leads (some EngineCommand.resume) k r = resume-Leads k r
    paused_command-Leads (some (EngineCommand.apply_config c)) k r = apply_paused-Leads c k r
    paused_command-Leads (some EngineCommand.open_settings) k r =
        Still-Leads _ (held r) _ (keeps _ r refl) (λ l. refl)
    paused_command-Leads (some EngineCommand.open_help) k r =
        Still-Leads _ (held r) _ (keeps _ r refl) (λ l. refl)
    paused_command-Leads (some EngineCommand.pause) k r = pure-Leads _ (held r) (keeps _ r refl)
    paused_command-Leads (some EngineCommand.force_scan) k r =
        pure-Leads _ (held r) (keeps _ r refl)

    pub running_command-Leads :
        (c : Option EngineCommand) (k : Course) (r : Bool)
        → Leads (Signal.command c k) (active r) (running_command setting c k)
    unfolding running_command
    running_command-Leads none k r = stop-Leads _ (active r)
    running_command-Leads (some EngineCommand.shutdown) k r = stop-Leads _ (active r)
    running_command-Leads (some EngineCommand.resume) k r = pure-Leads _ (active r) (is_awake k r)
    running_command-Leads (some (EngineCommand.apply_config c)) k r =
        After-Leads _ (active r) _ (applies c k r) (apply_interrupted c k r)
          (apply_running-After c k)
    running_command-Leads (some EngineCommand.open_settings) k r =
        pause_at-Leads _ r _ (opens_settings k r)
    running_command-Leads (some EngineCommand.open_help) k r = pause_at-Leads _ r _ (opens_help k r)
    running_command-Leads (some EngineCommand.pause) k r = pause_at-Leads _ r _ (pauses k r)
    running_command-Leads (some EngineCommand.force_scan) k r =
        bind-Triple _ (λ _ l. phase l ≡ active r)
          (λ flow l.
            Moves (some (Signal.command (some EngineCommand.force_scan) k)) (active r)
              (phase_after flow l))
          _ _ (λ l h a e. h)
          λ online.
            After-Leads _ (active r) _ (scans k r) (scan_interrupted k r)
              (when_online-After online k)
