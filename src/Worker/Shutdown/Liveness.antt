-- ===== src/Worker/Shutdown/Liveness.antt =====
-- A shutdown comes to its end (src/worker/graceful-shutdown.ts), and repeated requests change nothing.
use mathlib.Core.List.{append-nil}
use queue_worker_kit.Prelude.{
  ℕ, suc, ◌≤◌, ◌≡◌, refl, ap, sym, subst, ◌∙◌, arith, Text, length, ◌++◌, List, [], ◌∷◌, true,
  Option, none, some,
}
use queue_worker_kit.Worker.Shutdown.{
  RaceOutcome, complete, timeout, ShutdownState, idle, active, ShutdownEvent, shutdown,
  step_settled, deadline, grace_over, ShutdownOutput, is_shutting_down, already_in_progress,
  next_step, react, run,
}
use queue_worker_kit.Worker.Shutdown.Trace.{gather, gather-append, run-append}
use queue_worker_kit.Worker.Shutdown.Exit.{exit_of, verdict_exit, run-exits}

-- How many steps end.
abbrev pub settled_steps : List ShutdownEvent → ℕ
settled_steps [] = 0
settled_steps (step_settled r ∷ es) = suc (settled_steps es)
settled_steps (e ∷ es) = settled_steps es

-- The deadline does not pass.
abbrev pub InTime : List ShutdownEvent → Type 0
InTime [] = Unit
InTime (deadline ∷ es) = ⊥
InTime (e ∷ es) = InTime es

-- At most so many steps have not ended.
abbrev Left : ℕ → ShutdownState → Type 0
Left n idle = ⊥
Left n (active [] none due) = ⊥
Left n (active todo outcome due) = length todo ≤ n

-- The deadline has not won.
abbrev Timely : ShutdownState → Type 0
Timely (active todo (some timeout) due) = ⊥
Timely s = Unit

-- The exit that a race's outcome stands for.
abbrev pub exits_for : RaceOutcome → List ℕ
exits_for complete = 0 ∷ []
exits_for timeout = 1 ∷ []

module _ (steps : List Text) where
  next_step-Left :
      (todo : List Text) (outcome : Option RaceOutcome) (due : Option ℕ) (n : ℕ)
      → length todo ≤ n
      → Left n (next_step todo outcome due).0
  next_step-Left [] none due n h = omega arith
  next_step-Left [] (some o) due n h = omega arith
  next_step-Left (name ∷ todo) none due n h = h
  next_step-Left (name ∷ todo) (some o) due n h = h

  next_step-Timely :
      (rest : List Text) (name : Text) (outcome : Option RaceOutcome) (due : Option ℕ)
      → Timely (active (name ∷ rest) outcome due)
      → Timely (next_step rest outcome due).0
  next_step-Timely [] name none due h = tt
  next_step-Timely [] name (some complete) due h = tt
  next_step-Timely [] name (some timeout) due h = h
  next_step-Timely (x ∷ rest) name none due h = tt
  next_step-Timely (x ∷ rest) name (some complete) due h = tt
  next_step-Timely (x ∷ rest) name (some timeout) due h = h

  react-Left :
      (s : ShutdownState) (e : ShutdownEvent) (es : List ShutdownEvent)
      → Left (settled_steps (e ∷ es)) s
      → Left (settled_steps es) (react steps s e).0
  unfolding react
  react-Left idle e es h = absurd h
  react-Left (active [] none due) e es h = absurd h
  react-Left (active [] (some o) due) (shutdown reason) es h = omega arith
  react-Left (active [] (some o) due) (step_settled r) es h = omega arith
  react-Left (active [] (some o) due) deadline es h = omega arith
  react-Left (active [] (some o) none) grace_over es h = omega arith
  react-Left (active [] (some o) (some code)) grace_over es h = omega arith
  react-Left (active (name ∷ rest) none due) (shutdown reason) es h = h
  react-Left (active (name ∷ rest) (some o) due) (shutdown reason) es h = h
  react-Left (active (name ∷ rest) none due) (step_settled r) es h =
      next_step-Left rest none due _ (omega arith)
  react-Left (active (name ∷ rest) (some o) due) (step_settled r) es h =
      next_step-Left rest (some o) due _ (omega arith)
  react-Left (active (name ∷ rest) none due) deadline es h = h
  react-Left (active (name ∷ rest) (some o) due) deadline es h = h
  react-Left (active (name ∷ rest) none none) grace_over es h = h
  react-Left (active (name ∷ rest) (some o) none) grace_over es h = h
  react-Left (active (name ∷ rest) none (some code)) grace_over es h = h
  react-Left (active (name ∷ rest) (some o) (some code)) grace_over es h = h

  started-Timely : (todo : List Text) → Timely (next_step todo none none).0
  started-Timely [] = tt
  started-Timely (name ∷ todo) = tt

  react-Timely :
      (s : ShutdownState) (e : ShutdownEvent)
      → InTime (e ∷ [])
      → Timely s
      → Timely (react steps s e).0
  unfolding react
  react-Timely s deadline k h = absurd k
  react-Timely idle (shutdown reason) k h = started-Timely steps
  react-Timely (active todo outcome due) (shutdown reason) k h = h
  react-Timely idle (step_settled r) k h = tt
  react-Timely (active [] outcome due) (step_settled r) k h = h
  react-Timely (active (name ∷ rest) outcome due) (step_settled r) k h =
      next_step-Timely rest name outcome due h
  react-Timely idle grace_over k h = tt
  react-Timely (active todo outcome none) grace_over k h = h
  react-Timely (active todo none (some code)) grace_over k h = h
  react-Timely (active todo (some complete) (some code)) grace_over k h = h
  react-Timely (active todo (some timeout) (some code)) grace_over k h = h

  -- The race is over, and no step is left.
  abbrev Over : ShutdownState → Type 0
  Over s = (o : RaceOutcome) × (due : Option ℕ) × (s ≡ active [] (some o) due)

  none_remaining : (s : ShutdownState) → Left 0 s → Over s
  none_remaining idle h = absurd h
  none_remaining (active [] none due) h = absurd h
  none_remaining (active [] (some o) due) h = (o, due, refl)
  none_remaining (active (name ∷ rest) none due) h = ground arith
  none_remaining (active (name ∷ rest) (some o) due) h = ground arith

  run-Over :
      (es : List ShutdownEvent) (s : ShutdownState)
      → Left (settled_steps es) s
      → Over (run steps s es).0
  unfolding run
  run-Over [] s h = none_remaining s h
  run-Over (shutdown reason ∷ es) s h = run-Over es _ (react-Left s (shutdown reason) es h)
  run-Over (step_settled r ∷ es) s h = run-Over es _ (react-Left s (step_settled r) es h)
  run-Over (deadline ∷ es) s h = run-Over es _ (react-Left s deadline es h)
  run-Over (grace_over ∷ es) s h = run-Over es _ (react-Left s grace_over es h)

  run-Timely :
      (es : List ShutdownEvent) (s : ShutdownState)
      → InTime es
      → Timely s
      → Timely (run steps s es).0
  unfolding run
  run-Timely [] s k h = h
  run-Timely (shutdown reason ∷ es) s k h =
      run-Timely es _ k (react-Timely s (shutdown reason) tt h)
  run-Timely (step_settled r ∷ es) s k h = run-Timely es _ k (react-Timely s (step_settled r) tt h)
  run-Timely (deadline ∷ es) s k h = absurd k
  run-Timely (grace_over ∷ es) s k h = run-Timely es _ k (react-Timely s grace_over tt h)

  complete_in_time :
      (o : RaceOutcome) (due : Option ℕ) → Timely (active [] (some o) due) → o ≡ complete
  complete_in_time complete due h = refl
  complete_in_time timeout due h = absurd h

  grace-ends :
      (o : RaceOutcome) (due : Option ℕ)
      → (run steps (active [] (some o) due) (grace_over ∷ [])).0 ≡ active [] (some o) none
  unfolding run react
  grace-ends o none = refl
  grace-ends o (some code) = refl

  verdict-exits : (o : RaceOutcome) → verdict_exit (active [] (some o) none) ≡ exits_for o
  verdict-exits complete = refl
  verdict-exits timeout = refl

  exits_at_end :
      (es : List ShutdownEvent) (o : RaceOutcome)
      → (run steps idle es).0 ≡ active [] (some o) none
      → gather exit_of (run steps idle es).1 ≡ exits_for o
  exits_at_end es o e =
      sym (append-nil (gather exit_of (run steps idle es).1))
      ∙ (rw e at (run-exits steps es).0)
      ∙ verdict-exits o

  -- A shutdown comes to its end. In every sequence of events after its request, in which at least as
  -- many steps end as there are, however they end and whatever else happens, and after which the
  -- grace timer fires: no step is left, the race is decided, and the process has been told to exit,
  -- once, with 0 or with 1; with 0 if the deadline did not pass at all.
  pub run-completes :
      (reason : Text) (es : List ShutdownEvent)
      → length steps ≤ settled_steps es
      → let r = run steps idle (shutdown reason ∷ es ++ grace_over ∷ []) in
        (o : RaceOutcome) × (r.0 ≡ active [] (some o) none)
        × (gather exit_of r.1 ≡ exits_for o)
        × (InTime es → o ≡ complete)
  unfolding run react
  run-completes reason es h =
      let first : ShutdownState = (next_step steps none none).0 in
      let (o, due, over) = run-Over es first (next_step-Left steps none none _ h) in
      let ended : (run steps idle (shutdown reason ∷ es ++ grace_over ∷ [])).0
          ≡ active [] (some o) none =
        run-append steps first es (grace_over ∷ [])
        ∙ ap (λ (s : ShutdownState). (run steps s (grace_over ∷ [])).0) over
        ∙ grace-ends o due in
      (
        o,
        ended,
        exits_at_end (shutdown reason ∷ es ++ grace_over ∷ []) o ended,
        λ k.
            complete_in_time o due
              (subst Timely over (run-Timely es first k (started-Timely steps))),
      )

abbrev pub without_requests : List ShutdownEvent → List ShutdownEvent
without_requests [] = []
without_requests (shutdown reason ∷ es) = without_requests es
without_requests (e ∷ es) = e ∷ without_requests es

module _ (steps : List Text) where
  next_step_goes_on :
      (todo : List Text) (outcome : Option RaceOutcome) (due : Option ℕ)
      → is_shutting_down (next_step todo outcome due).0 ≡ true
  next_step_goes_on (name ∷ todo) outcome due = refl
  next_step_goes_on [] none due = refl
  next_step_goes_on [] (some o) due = refl

  react_goes_on :
      (s : ShutdownState) (e : ShutdownEvent)
      → is_shutting_down s ≡ true
      → is_shutting_down (react steps s e).0 ≡ true
  unfolding react
  react_goes_on idle e h = ground (arith, h)
  react_goes_on (active todo outcome due) (shutdown reason) h = refl
  react_goes_on (active [] outcome due) (step_settled r) h = refl
  react_goes_on (active (name ∷ todo) outcome due) (step_settled r) h =
      next_step_goes_on todo outcome due
  react_goes_on (active todo none due) deadline h = refl
  react_goes_on (active todo (some o) due) deadline h = refl
  react_goes_on (active todo outcome none) grace_over h = refl
  react_goes_on (active todo outcome (some code)) grace_over h = refl

  request_ignored :
      (s : ShutdownState) (reason : Text)
      → is_shutting_down s ≡ true
      → react steps s (shutdown reason) ≡ (s, already_in_progress reason ∷ [])
  unfolding react
  request_ignored idle reason h = ground (arith, h)
  request_ignored (active todo outcome due) reason h = refl

  gather-after :
      {A : Type 0} (f : ShutdownOutput → List A) (now os ps : List ShutdownOutput)
      → gather f os ≡ gather f ps
      → gather f (now ++ os) ≡ gather f (now ++ ps)
  gather-after {A = A} f now os ps h =
      gather-append f now os
      ∙ ap (λ (l : List A). gather f now ++ l) h
      ∙ sym (gather-append f now ps)

  -- Once a shutdown is under way, further requests for one leave no trace: the state that a
  -- sequence of events leads to, and all that it puts out but the notices that a shutdown is in
  -- progress, are what they would be without them.
  pub run-without_requests :
      {A : Type 0} (f : ShutdownOutput → List A)
      → ((reason : Text) → f (already_in_progress reason) ≡ [])
      → (s : ShutdownState) (es : List ShutdownEvent) → is_shutting_down s ≡ true
      → ((run steps s es).0 ≡ (run steps s (without_requests es)).0)
        × (gather f (run steps s es).1 ≡ gather f (run steps s (without_requests es)).1)
  unfolding run
  run-without_requests f n s [] h = (refl, refl)
  run-without_requests {A = A} f n s (shutdown reason ∷ es) h =
      let (states, outputs) = run-without_requests f n s es h in
      rw (request_ignored s reason h)
        (states, ap (λ (l : List A). l ++ gather f (run steps s es).1) (n reason) ∙ outputs)
  run-without_requests f n s (step_settled r ∷ es) h =
      let (states, outputs) =
        run-without_requests f n (react steps s (step_settled r)).0 es
          (react_goes_on s (step_settled r) h) in
      (states, gather-after f (react steps s (step_settled r)).1 _ _ outputs)
  run-without_requests f n s (deadline ∷ es) h =
      let (states, outputs) =
        run-without_requests f n (react steps s deadline).0 es (react_goes_on s deadline h) in
      (states, gather-after f (react steps s deadline).1 _ _ outputs)
  run-without_requests f n s (grace_over ∷ es) h =
      let (states, outputs) =
        run-without_requests f n (react steps s grace_over).0 es (react_goes_on s grace_over h) in
      (states, gather-after f (react steps s grace_over).1 _ _ outputs)
