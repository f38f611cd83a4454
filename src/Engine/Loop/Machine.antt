-- ===== src/Engine/Loop/Machine.antt =====
-- src/engine/mod.rs: the phases of the main loop, and an abstract machine on them.
use syncgdrive.Base.{ℕ, Bool, true, false, Option, none, some, ◌≡◌}
use syncgdrive.Config.{AppConfig}
use syncgdrive.Engine.Status.{EngineCommand}
use syncgdrive.Engine.Tasks.{Task}
use syncgdrive.Engine.Loop.{Engine, Course, Signal, Flow, again, leave}

-- At work, in pause, or at its end; with the mark of a scan that has to be made up for.
pub data Phase : Type 0 where
  active : Bool → Phase
  held : Bool → Phase
  ended : Phase

abbrev pub phase : {R : Type 0} → Engine R → Phase
phase l = elim l.shutdown [
  | true ↦ ended
  | false ↦ elim l.paused [ true ↦ held l.rescan_on_resume | false ↦ active l.rescan_on_resume ]
]

abbrev pub phase_after : {R : Type 0} → Flow → Engine R → Phase
phase_after leave l = ended
phase_after again l = phase l

abbrev pub heard_waiting : Signal → Option Signal
heard_waiting Signal.cancelled = some Signal.cancelled
heard_waiting (Signal.worked n) = some (Signal.worked n)
heard_waiting (Signal.command c course) = none
heard_waiting Signal.health_tick = none
heard_waiting (Signal.rescan_tick ends) = none
heard_waiting (Signal.task t) = none

-- What the loop hears of a signal: a task that waits for a permit keeps it from all but the
-- workers and the token.
abbrev pub heard : {R : Type 0} → Engine R → Signal → Option Signal
heard l signal = elim l.waiting [ none ↦ some signal | some t ↦ heard_waiting signal ]

-- The signals that a pause does not pass over.
abbrev pub stirs : Signal → Bool
stirs Signal.cancelled = true
stirs (Signal.command none k) = true
stirs (Signal.command (some EngineCommand.resume) k) = true
stirs (Signal.command (some EngineCommand.shutdown) k) = true
stirs (Signal.command (some (EngineCommand.apply_config c)) k) = true
stirs (Signal.command (some EngineCommand.pause) k) = false
stirs (Signal.command (some EngineCommand.force_scan) k) = false
stirs (Signal.command (some EngineCommand.open_settings) k) = false
stirs (Signal.command (some EngineCommand.open_help) k) = false
stirs Signal.health_tick = false
stirs (Signal.rescan_tick b) = false
stirs (Signal.task t) = false
stirs (Signal.worked n) = false

-- The machine: the phases that a signal may lead to.
pub data Moves : Option Signal → Phase → Phase → Type 0 where
  stutters : (p : Phase) → Moves none p p
  ends : (i : Option Signal) (p : Phase) → Moves i p ended
  works : (n : ℕ) (p : Phase) → Moves (some (Signal.worked n)) p p
  -- Out of a pause.
  waits : (r : Bool) → Moves (some Signal.health_tick) (active r) (active r)
  takes : (t : Task) (r : Bool) → Moves (some (Signal.task (some t))) (active r) (active r)
  rescans : (b r : Bool) → Moves (some (Signal.rescan_tick b)) (active r) (active r)
  is_awake :
      (k : Course) (r : Bool)
      → Moves (some (Signal.command (some EngineCommand.resume) k)) (active r) (active r)
  pauses :
      (k : Course) (r : Bool)
      → Moves (some (Signal.command (some EngineCommand.pause) k)) (active r) (held r)
  opens_settings :
      (k : Course) (r : Bool)
      → Moves (some (Signal.command (some EngineCommand.open_settings) k)) (active r) (held r)
  opens_help :
      (k : Course) (r : Bool)
      → Moves (some (Signal.command (some EngineCommand.open_help) k)) (active r) (held r)
  scans :
      (k : Course) (r : Bool)
      → Moves (some (Signal.command (some EngineCommand.force_scan) k)) (active r) (active r)
  scan_interrupted :
      (k : Course) (r : Bool)
      → Moves (some (Signal.command (some EngineCommand.force_scan) k)) (active r) (held true)
  applies :
      (c : AppConfig) (k : Course) (r : Bool)
      → Moves (some (Signal.command (some (EngineCommand.apply_config c)) k)) (active r) (active r)
  apply_interrupted :
      (c : AppConfig) (k : Course) (r : Bool)
      → Moves (some (Signal.command (some (EngineCommand.apply_config c)) k)) (active r) (held true)
  -- In pause.
  resumes :
      (k : Course) (r : Bool)
      → Moves (some (Signal.command (some EngineCommand.resume) k)) (held r) (active r)
  makes_up :
      (k : Course)
      → Moves (some (Signal.command (some EngineCommand.resume) k)) (held true) (active false)
  resume_interrupted :
      (k : Course)
      → Moves (some (Signal.command (some EngineCommand.resume) k)) (held true) (held true)
  marks :
      (c : AppConfig) (k : Course) (r : Bool)
      → Moves (some (Signal.command (some (EngineCommand.apply_config c)) k)) (held r) (held true)
  keeps : (i : Signal) (r : Bool) → stirs i ≡ false → Moves (some i) (held r) (held r)
