-- ===== src/Worker/Shutdown/Exit.antt =====
-- The exit code of a shutdown (src/worker/graceful-shutdown.ts), in every sequence of events.
use mathlib.Core.List.{append-nil, nil≢cons}
use queue_worker_kit.Prelude.{
  ℕ, ◌≤◌, ◌≡◌, refl, ap, sym, ◌∙◌, arith, Text, length, length-append, ◌++◌, List, [], ◌∷◌, Option,
  none, some,
}
use queue_worker_kit.Values.{Completion, normal, throw}
use queue_worker_kit.Worker.Shutdown.{
  RaceOutcome, complete, timeout, ShutdownState, idle, active, ShutdownEvent, shutdown,
  step_settled, deadline, grace_over, ShutdownOutput, exit, settled, next_step, react, run,
}
use queue_worker_kit.Worker.Shutdown.Trace.{gather, quiet, Keeps, run-Keeps}

abbrev pub exit_of : ShutdownOutput → List ℕ
exit_of (exit code) = code ∷ []
exit_of o = []

-- The exit that the grace timer holds.
abbrev pub due_exit : ShutdownState → List ℕ
due_exit (active todo outcome (some code)) = code ∷ []
due_exit s = []

-- The exit that the race calls for, when it is over.
abbrev pub verdict_exit : ShutdownState → List ℕ
verdict_exit (active todo (some complete) due) = 0 ∷ []
verdict_exit (active todo (some timeout) due) = 1 ∷ []
verdict_exit s = []

Agrees : List ℕ → ShutdownState → Type 0
Agrees = Keeps exit_of due_exit verdict_exit

nothing_before : (before later : List ℕ) → before ++ later ≡ [] → before ≡ []
nothing_before [] later h = refl
nothing_before (code ∷ before) later h = absurd (nil≢cons (sym h))

settled-exits :
    (name : Text) (r : Completion (Unit {0})) (os : List ShutdownOutput)
    → gather exit_of (settled name r ∷ os) ≡ gather exit_of os
settled-exits name (normal u) os = refl
settled-exits name (throw v) os = refl

next_step-Agrees :
    (before : List ℕ) (current todo : List Text) (outcome : Option RaceOutcome) (due : Option ℕ)
    → Agrees before (active current outcome due)
    → Agrees
        (before ++ gather exit_of (next_step todo outcome due).1)
        (next_step todo outcome due).0
unfolding Agrees
next_step-Agrees before current (name ∷ rest) none none h = quiet before _ h
next_step-Agrees before current (name ∷ rest) none (some code) h = quiet before _ h
next_step-Agrees before current (name ∷ rest) (some o) none h = quiet before _ h
next_step-Agrees before current (name ∷ rest) (some o) (some code) h = quiet before _ h
next_step-Agrees before current [] none due h = rw (nothing_before before _ h)
next_step-Agrees before current [] (some o) none h = quiet before _ h
next_step-Agrees before current [] (some o) (some code) h = quiet before _ h

react-Agrees :
    (steps : List Text) (before : List ℕ) (s : ShutdownState) (e : ShutdownEvent)
    → Agrees before s
    → Agrees (before ++ gather exit_of (react steps s e).1) (react steps s e).0
unfolding Agrees react
react-Agrees steps before idle (shutdown reason) h = next_step-Agrees before [] steps none none h
react-Agrees steps before (active todo outcome due) (shutdown reason) h = quiet before _ h
react-Agrees steps before idle (step_settled r) h = quiet before _ h
react-Agrees steps before (active [] outcome due) (step_settled r) h = quiet before _ h
react-Agrees steps before (active (name ∷ rest) outcome due) (step_settled r) h =
    rw (settled-exits name r (next_step rest outcome due).1)
      (next_step-Agrees before (name ∷ rest) rest outcome due h)
react-Agrees steps before idle deadline h = quiet before _ h
react-Agrees steps before (active todo none due) deadline h = rw (nothing_before before _ h)
react-Agrees steps before (active todo (some o) due) deadline h = quiet before _ h
react-Agrees steps before idle grace_over h = quiet before _ h
react-Agrees steps before (active todo outcome none) grace_over h = quiet before _ h
react-Agrees steps before (active todo none (some code)) grace_over h =
    append-nil (before ++ code ∷ []) ∙ h
react-Agrees steps before (active todo (some complete) (some code)) grace_over h =
    append-nil (before ++ code ∷ []) ∙ h
react-Agrees steps before (active todo (some timeout) (some code)) grace_over h =
    append-nil (before ++ code ∷ []) ∙ h

length-verdict_exit : (s : ShutdownState) → length (verdict_exit s) ≤ 1
length-verdict_exit idle = omega arith
length-verdict_exit (active todo none due) = omega arith
length-verdict_exit (active todo (some complete) due) = omega arith
length-verdict_exit (active todo (some timeout) due) = omega arith

-- In every sequence of events, the exits made, followed by the one that the grace timer holds, are
-- the one that the race calls for: none while it is undecided, 0 if the steps ended first, 1 if the
-- deadline did. So the process is told to exit at most once.
pub run-exits :
    (steps : List Text) (es : List ShutdownEvent)
    → let r = run steps idle es in
      (gather exit_of r.1 ++ due_exit r.0 ≡ verdict_exit r.0) × length (gather exit_of r.1) ≤ 1
unfolding Agrees
run-exits steps es =
    let agreed : gather exit_of (run steps idle es).1 ++ due_exit (run steps idle es).0
        ≡ verdict_exit (run steps idle es).0 =
      run-Keeps exit_of due_exit verdict_exit steps (react-Agrees steps) [] idle es refl in
    (
      agreed,
      omega (
        arith,
        ap (λ (l : List ℕ). length l) agreed,
        length-append (gather exit_of (run steps idle es).1) (due_exit (run steps idle es).0),
        length-verdict_exit (run steps idle es).0,
      ),
    )
