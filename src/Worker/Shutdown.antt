-- ===== src/Worker/Shutdown.antt =====
-- `createShutdownController` of src/worker/graceful-shutdown.ts as a state machine. An event is a
-- call of `shutdown`, the end of the running step's promise, or a timer that fires. The durations
-- in the records of the log are left out.
pub mod Trace
pub mod Exit
pub mod Order
pub mod Waits
pub mod Refinement
pub mod Signals
pub mod Liveness
use queue_worker_kit.Prelude.{
  ℕ, Text, ◌++◌, List, [], ◌∷◌, Bool, true, false, Option, none, some, if◌then◌else◌,
}
use queue_worker_kit.Values.{Completion, normal, throw}

pub data RaceOutcome : Type 0 where
  complete timeout : RaceOutcome

-- `running` is undefined, or the shutdown is under way with: the step that runs and those that
-- wait, what won the race between the steps and the deadline, and the exit code that the grace
-- timer holds.
pub data ShutdownState : Type 0 where
  idle : ShutdownState
  active : List Text → Option RaceOutcome → Option ℕ → ShutdownState

pub data ShutdownEvent : Type 0 where
  shutdown : Text → ShutdownEvent
  step_settled : Completion (Unit {0}) → ShutdownEvent
  deadline grace_over : ShutdownEvent

pub data ShutdownOutput : Type 0 where
  run_step step_complete step_failed : Text → ShutdownOutput
  shutdown_started already_in_progress : Text → ShutdownOutput
  deadline_exceeded shutdown_complete : ShutdownOutput
  exit : ℕ → ShutdownOutput

abbrev pub is_shutting_down : ShutdownState → Bool
is_shutting_down idle = false
is_shutting_down (active todo outcome due) = true

-- `timedOut ? 1 : 0`
abbrev pub exit_code : RaceOutcome → ℕ
exit_code complete = 0
exit_code timeout = 1

abbrev verdict : RaceOutcome → ShutdownOutput
verdict complete = shutdown_complete
verdict timeout = deadline_exceeded

-- What follows the race: the verdict is logged and the grace timer is set.
abbrev pub settle_race : RaceOutcome → List Text → ShutdownState × List ShutdownOutput
settle_race o todo = (active todo (some o) (some (exit_code o)), verdict o ∷ [])

-- The loop of `runSteps`, at the next step. After the last, the race settles, if it has not.
abbrev pub next_step :
    List Text → Option RaceOutcome → Option ℕ → ShutdownState × List ShutdownOutput
next_step (name ∷ rest) outcome due = (active (name ∷ rest) outcome due, run_step name ∷ [])
next_step [] none due = settle_race complete []
next_step [] (some o) due = (active [] (some o) due, [])

-- The `try` of `runSteps`: a failed step is logged, and the loop goes on.
abbrev pub settled : Text → Completion (Unit {0}) → ShutdownOutput
settled name (normal u) = step_complete name
settled name (throw v) = step_failed name

abbrev pub also :
    List ShutdownOutput → ShutdownState × List ShutdownOutput → ShutdownState × List ShutdownOutput
also os (s, ps) = (s, os ++ ps)

abbrev on_shutdown : List Text → Text → ShutdownState → ShutdownState × List ShutdownOutput
on_shutdown steps reason idle = also (shutdown_started reason ∷ []) (next_step steps none none)
on_shutdown steps reason (active todo outcome due) =
    (active todo outcome due, already_in_progress reason ∷ [])

abbrev on_step_settled : Completion (Unit {0}) → ShutdownState → ShutdownState × List ShutdownOutput
on_step_settled r (active (name ∷ rest) outcome due) =
    also (settled name r ∷ []) (next_step rest outcome due)
on_step_settled r s = (s, [])

-- The deadline's timer is cleared when the race settles.
abbrev on_deadline : ShutdownState → ShutdownState × List ShutdownOutput
on_deadline (active todo none due) = settle_race timeout todo
on_deadline s = (s, [])

abbrev on_grace_over : ShutdownState → ShutdownState × List ShutdownOutput
on_grace_over (active todo outcome (some code)) = (active todo outcome none, exit code ∷ [])
on_grace_over s = (s, [])

unfoldable pub react :
    List Text → ShutdownState → ShutdownEvent → ShutdownState × List ShutdownOutput
react steps s (shutdown reason) = on_shutdown steps reason s
react steps s (step_settled r) = on_step_settled r s
react steps s deadline = on_deadline s
react steps s grace_over = on_grace_over s

unfoldable pub run :
    List Text → ShutdownState → List ShutdownEvent → ShutdownState × List ShutdownOutput
run steps s [] = (s, [])
run steps s (e ∷ es) = let (s', os) = react steps s e in also os (run steps s' es)
