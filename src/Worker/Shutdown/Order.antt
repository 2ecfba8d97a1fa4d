-- ===== src/Worker/Shutdown/Order.antt =====
-- The order of the steps of a shutdown, and repeated requests (src/worker/graceful-shutdown.ts).
use mathlib.Core.List.{append_assoc}
use queue_worker_kit.Prelude.{
  ℕ, ◌≡◌, refl, ◌∙◌, subst, Text, drop, ◌++◌, List, [], ◌∷◌, Option, none, some,
}
use queue_worker_kit.Values.{normal, throw}
use queue_worker_kit.Worker.Shutdown.{
  RaceOutcome, ShutdownState, idle, active, ShutdownEvent, shutdown, step_settled, deadline,
  grace_over, ShutdownOutput, run_step, step_complete, step_failed, next_step, react, run,
}
use queue_worker_kit.Worker.Shutdown.Trace.{gather, quiet, Keeps, run-Keeps}

abbrev pub started_step : ShutdownOutput → List Text
started_step (run_step name) = name ∷ []
started_step o = []

abbrev pub ended_step : ShutdownOutput → List Text
ended_step (step_complete name) = name ∷ []
ended_step (step_failed name) = name ∷ []
ended_step o = []

-- The steps that have not ended, and those that have not started.
abbrev pub unended : List Text → ShutdownState → List Text
unended steps idle = steps
unended steps (active todo outcome due) = todo

abbrev pub unstarted : List Text → ShutdownState → List Text
unstarted steps idle = steps
unstarted steps (active todo outcome due) = drop 1 todo

module _ (steps : List Text) where
  Ended : List Text → ShutdownState → Type 0
  Ended = Keeps ended_step (unended steps) (λ s. steps)

  Started : List Text → ShutdownState → Type 0
  Started = Keeps started_step (unstarted steps) (λ s. steps)

  next_step-Ended :
      (before todo : List Text) (outcome : Option RaceOutcome) (due : Option ℕ)
      → before ++ todo ≡ steps
      → Ended
          (before ++ gather ended_step (next_step todo outcome due).1)
          (next_step todo outcome due).0
  unfolding Ended
  next_step-Ended before (name ∷ rest) outcome due h = quiet before _ h
  next_step-Ended before [] none due h = quiet before _ h
  next_step-Ended before [] (some o) due h = quiet before _ h

  next_step-Started :
      (before todo : List Text) (outcome : Option RaceOutcome) (due : Option ℕ)
      → before ++ todo ≡ steps
      → Started
          (before ++ gather started_step (next_step todo outcome due).1)
          (next_step todo outcome due).0
  unfolding Started
  next_step-Started before (name ∷ rest) outcome due h = append_assoc before (name ∷ []) rest ∙ h
  next_step-Started before [] none due h = quiet before _ h
  next_step-Started before [] (some o) due h = quiet before _ h

  one_more-Ended :
      (before : List Text) (name : Text) (rest : List Text) (outcome : Option RaceOutcome)
      (due : Option ℕ)
      → before ++ name ∷ rest ≡ steps
      → Ended
          (before ++ name ∷ gather ended_step (next_step rest outcome due).1)
          (next_step rest outcome due).0
  one_more-Ended before name rest outcome due h =
      subst (λ (l : List Text). Ended l (next_step rest outcome due).0)
        (append_assoc before (name ∷ []) (gather ended_step (next_step rest outcome due).1))
        (next_step-Ended (before ++ name ∷ []) rest outcome due
          (append_assoc before (name ∷ []) rest ∙ h))

  react-Ended :
      (before : List Text) (s : ShutdownState) (e : ShutdownEvent)
      → Ended before s
      → Ended (before ++ gather ended_step (react steps s e).1) (react steps s e).0
  unfolding Ended react
  react-Ended before idle (shutdown reason) h = next_step-Ended before steps none none h
  react-Ended before (active todo outcome due) (shutdown reason) h = quiet before _ h
  react-Ended before idle (step_settled r) h = quiet before _ h
  react-Ended before (active [] outcome due) (step_settled r) h = quiet before _ h
  react-Ended before (active (name ∷ rest) outcome due) (step_settled (normal u)) h =
      one_more-Ended before name rest outcome due h
  react-Ended before (active (name ∷ rest) outcome due) (step_settled (throw v)) h =
      one_more-Ended before name rest outcome due h
  react-Ended before idle deadline h = quiet before _ h
  react-Ended before (active todo none due) deadline h = quiet before _ h
  react-Ended before (active todo (some o) due) deadline h = quiet before _ h
  react-Ended before idle grace_over h = quiet before _ h
  react-Ended before (active todo outcome none) grace_over h = quiet before _ h
  react-Ended before (active todo outcome (some code)) grace_over h = quiet before _ h

  react-Started :
      (before : List Text) (s : ShutdownState) (e : ShutdownEvent)
      → Started before s
      → Started (before ++ gather started_step (react steps s e).1) (react steps s e).0
  unfolding Started react
  react-Started before idle (shutdown reason) h = next_step-Started before steps none none h
  react-Started before (active todo outcome due) (shutdown reason) h = quiet before _ h
  react-Started before idle (step_settled r) h = quiet before _ h
  react-Started before (active [] outcome due) (step_settled r) h = quiet before _ h
  react-Started before (active (name ∷ rest) outcome due) (step_settled (normal u)) h =
      next_step-Started before rest outcome due h
  react-Started before (active (name ∷ rest) outcome due) (step_settled (throw v)) h =
      next_step-Started before rest outcome due h
  react-Started before idle deadline h = quiet before _ h
  react-Started before (active todo none due) deadline h = quiet before _ h
  react-Started before (active todo (some o) due) deadline h = quiet before _ h
  react-Started before idle grace_over h = quiet before _ h
  react-Started before (active todo outcome none) grace_over h = quiet before _ h
  react-Started before (active todo outcome (some code)) grace_over h = quiet before _ h

  -- In every sequence of events, the steps that ended are the first of the declared ones, in their
  -- order, whatever failed, and so are those that started, which are at most one more: a step starts
  -- when the one before it has ended.
  pub run-in_order :
      (es : List ShutdownEvent)
      → let r = run steps idle es in
        (gather ended_step r.1 ++ unended steps r.0 ≡ steps)
        × (gather started_step r.1 ++ unstarted steps r.0 ≡ steps)
  unfolding Ended Started
  run-in_order es = (
    run-Keeps ended_step (unended steps) (λ s. steps) steps react-Ended [] idle es refl,
    run-Keeps started_step (unstarted steps) (λ s. steps) steps react-Started [] idle es refl,
  )
