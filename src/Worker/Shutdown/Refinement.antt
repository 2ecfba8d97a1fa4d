-- ===== src/Worker/Shutdown/Refinement.antt =====
-- What a process shows of its shutdown: the abstract machine that the controller of
-- src/worker/graceful-shutdown.ts implements.
use queue_worker_kit.Prelude.{ℕ, sym, subst, Text, ◌++◌, List, [], ◌∷◌, Option, none, some}
use queue_worker_kit.Values.{Completion, normal, throw}
use queue_worker_kit.Worker.Shutdown.{
  RaceOutcome, complete, timeout, ShutdownState, idle, active, ShutdownEvent, shutdown,
  step_settled, deadline, grace_over, ShutdownOutput, shutdown_started, shutdown_complete,
  deadline_exceeded, settled, next_step, react, run,
}
use queue_worker_kit.Worker.Shutdown.Trace.{gather, gather-append}

pub data Phase : Type 0 where
  serving draining : Phase
  ended : RaceOutcome → Phase

pub data Label : Type 0 where
  began : Label
  finished : RaceOutcome → Label

-- The runs of the abstract machine: it serves, begins to drain once, and ends once.
pub data Runs : Phase → List Label → Phase → Type 0 where
  halt : {p : Phase} → Runs p [] p
  begins : {ls : List Label} {q : Phase} → Runs draining ls q → Runs serving (began ∷ ls) q
  finishes :
      {o : RaceOutcome} {ls : List Label} {q : Phase}
      → Runs (ended o) ls q
      → Runs draining (finished o ∷ ls) q

abbrev pub phase : ShutdownState → Phase
phase idle = serving
phase (active todo none due) = draining
phase (active todo (some o) due) = ended o

abbrev pub label : ShutdownOutput → List Label
label (shutdown_started reason) = began ∷ []
label shutdown_complete = finished complete ∷ []
label deadline_exceeded = finished timeout ∷ []
label o = []

Runs-append : {p q r : Phase} {ls ms : List Label} → Runs p ls q → Runs q ms r → Runs p (ls ++ ms) r
Runs-append halt k = k
Runs-append (begins h) k = begins (Runs-append h k)
Runs-append (finishes h) k = finishes (Runs-append h k)

next_step-Runs :
    (todo : List Text) (outcome : Option RaceOutcome) (due : Option ℕ)
    → Runs
        (phase (active todo outcome due))
        (gather label (next_step todo outcome due).1)
        (phase (next_step todo outcome due).0)
next_step-Runs (name ∷ rest) none due = halt
next_step-Runs (name ∷ rest) (some o) due = halt
next_step-Runs [] none due = finishes halt
next_step-Runs [] (some o) due = halt

settled-Runs :
    (name : Text) (r : Completion (Unit {0})) (rest : List Text) (outcome : Option RaceOutcome)
    (due : Option ℕ)
    → Runs
        (phase (active rest outcome due))
        (gather label (settled name r ∷ (next_step rest outcome due).1))
        (phase (next_step rest outcome due).0)
settled-Runs name (normal u) rest outcome due = next_step-Runs rest outcome due
settled-Runs name (throw v) rest outcome due = next_step-Runs rest outcome due

react-Runs :
    (steps : List Text) (s : ShutdownState) (e : ShutdownEvent)
    → Runs (phase s) (gather label (react steps s e).1) (phase (react steps s e).0)
unfolding react
react-Runs steps idle (shutdown reason) = begins (next_step-Runs steps none none)
react-Runs steps (active todo outcome due) (shutdown reason) = halt
react-Runs steps idle (step_settled r) = halt
react-Runs steps (active [] outcome due) (step_settled r) = halt
react-Runs steps (active (name ∷ rest) none due) (step_settled r) =
    settled-Runs name r rest none due
react-Runs steps (active (name ∷ rest) (some o) due) (step_settled r) =
    settled-Runs name r rest (some o) due
react-Runs steps idle deadline = halt
react-Runs steps (active todo none due) deadline = finishes halt
react-Runs steps (active todo (some o) due) deadline = halt
react-Runs steps idle grace_over = halt
react-Runs steps (active todo outcome none) grace_over = halt
react-Runs steps (active todo none (some code)) grace_over = halt
react-Runs steps (active todo (some o) (some code)) grace_over = halt

-- The controller refines the abstract machine: from any state and for any sequence of events, what
-- it logs of its start and of its verdict is a run of that machine, from the phase of the first
-- state to the phase of the last. So a shutdown begins at most once, has at most one verdict, and
-- has one only after it has begun.
pub run-Runs :
    (steps : List Text) (s : ShutdownState) (es : List ShutdownEvent)
    → Runs (phase s) (gather label (run steps s es).1) (phase (run steps s es).0)
unfolding run
run-Runs steps s [] = halt
run-Runs steps s (e ∷ es) =
    subst (λ (ls : List Label). Runs (phase s) ls (phase (run steps (react steps s e).0 es).0))
      (sym (gather-append label (react steps s e).1 (run steps (react steps s e).0 es).1))
      (Runs-append (react-Runs steps s e) (run-Runs steps (react steps s e).0 es))
