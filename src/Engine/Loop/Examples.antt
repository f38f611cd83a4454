-- ===== src/Engine/Loop/Examples.antt =====
-- The main loop at a concrete setting.
use syncgdrive.Base.{refl, Text, codes, false, some, List, [], ◌∷◌, ok, ◌>>=◌}
use syncgdrive.Engine.Status.{EngineCommand}
use syncgdrive.Engine.Tasks.{sync_file}
use syncgdrive.Engine.Samples.{env, provider, cfg, at_root, walk, idle_scan}
use syncgdrive.Engine.Loop.{Setting, Engine, completes, Signal, again}
use syncgdrive.Engine.Loop.Commands.{running_command}
use syncgdrive.Engine.Loop.Events.{step, running_step}
use syncgdrive.Engine.Loop.Startup.{new, run}
use syncgdrive.Engine.Loop.Machine.{Moves, phase, phase_after, heard}
use syncgdrive.Engine.Loop.Lifecycle.{step-Moves}
use syncgdrive.Engine.Loop.Jobs.{IsBounded, run-IsBounded}

abbrev setting : Setting (List Text)
setting = record {
  env = env;
  walk = walk;
  provider = provider;
  from_patterns = λ patterns. ok (λ t. false);
  watch = λ root. ok tt;
  cut = λ s. s;
  ctx_cfg = cfg;
  dry_run = false;
}

abbrev fresh : Engine (List Text)
fresh = new setting idle_scan

abbrev pauses_now : Signal
pauses_now = Signal.command (some EngineCommand.pause) completes

step-Moves_example :
    Moves
      (heard fresh pauses_now)
      (phase fresh)
      (phase_after again (step setting pauses_now fresh).1)
unfolding step running_step running_command new ◌>>=◌
step-Moves_example = step-Moves setting pauses_now fresh again refl

run-IsBounded_example :
    IsBounded setting
      (run setting completes (Signal.task (some (sync_file (at_root (codes "b")))) ∷ []) fresh).1
run-IsBounded_example =
    run-IsBounded setting completes (Signal.task (some (sync_file (at_root (codes "b")))) ∷ [])
      idle_scan
