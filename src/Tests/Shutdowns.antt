-- ===== src/Tests/Shutdowns.antt =====
-- The theorems on shutdowns at concrete inputs.
use queue_worker_kit.Prelude.{◌≤◌, ◌≡◌, arith, Text, codes, length, List, [], ◌∷◌, ◌++◌, none, some}
use queue_worker_kit.Values.{undefined, normal, throw}
use queue_worker_kit.Worker.Shutdown.{
  RaceOutcome, complete, idle, active, ShutdownEvent, shutdown, step_settled, deadline, grace_over,
  run,
}
use queue_worker_kit.Worker.Shutdown.Trace.{gather}
use queue_worker_kit.Worker.Shutdown.Refinement.{Runs, phase, label, run-Runs}
use queue_worker_kit.Worker.Shutdown.Exit.{exit_of, due_exit, verdict_exit, run-exits}
use queue_worker_kit.Worker.Shutdown.Liveness.{InTime, exits_for, run-completes}

abbrev steps : List Text
steps = codes "close the workers" ∷ codes "close redis" ∷ []

abbrev late : List ShutdownEvent
late =
    shutdown (codes "SIGTERM")
    ∷ step_settled (throw undefined)
    ∷ shutdown (codes "SIGINT")
    ∷ deadline
    ∷ grace_over
    ∷ step_settled (normal tt)
    ∷ []

run-exits_example :
    let r = run steps idle late in
    (gather exit_of r.1 ++ due_exit r.0 ≡ verdict_exit r.0) × length (gather exit_of r.1) ≤ 1
run-exits_example = run-exits steps late

abbrev all_settle : List ShutdownEvent
all_settle = step_settled (throw undefined) ∷ deadline ∷ step_settled (normal tt) ∷ []

run-completes_example :
    let r = run steps idle (shutdown (codes "SIGTERM") ∷ all_settle ++ grace_over ∷ []) in
    (o : RaceOutcome) × (r.0 ≡ active [] (some o) none)
    × (gather exit_of r.1 ≡ exits_for o)
    × (InTime all_settle → o ≡ complete)
run-completes_example = run-completes steps (codes "SIGTERM") all_settle (omega arith)

run-Runs_example :
    Runs
      (phase idle)
      (gather label (run (codes "redis" ∷ []) idle (shutdown (codes "SIGTERM") ∷ deadline ∷ [])).1)
      (phase (run (codes "redis" ∷ []) idle (shutdown (codes "SIGTERM") ∷ deadline ∷ [])).0)
run-Runs_example = run-Runs (codes "redis" ∷ []) idle (shutdown (codes "SIGTERM") ∷ deadline ∷ [])
