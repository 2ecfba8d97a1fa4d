-- ===== src/Worker/Shutdown/Trace.antt =====
-- Sequences of events of a shutdown (src/worker/graceful-shutdown.ts): what their outputs have in
-- common, and equations that every event keeps.
use mathlib.Core.List.{append-nil, append_assoc}
use queue_worker_kit.Prelude.{◌≡◌, refl, ap, sym, ◌∙◌, subst, Text, ◌++◌, List, [], ◌∷◌}
use queue_worker_kit.Worker.Shutdown.{ShutdownState, ShutdownEvent, ShutdownOutput, react, run}

module _ {A : Type 0} (f : ShutdownOutput → List A) where
  abbrev pub gather : List ShutdownOutput → List A
  gather [] = []
  gather (o ∷ os) = f o ++ gather os

  pub gather-append : (os ps : List ShutdownOutput) → gather (os ++ ps) ≡ gather os ++ gather ps
  gather-append [] ps = refl
  gather-append (o ∷ os) ps =
      ap (λ (l : List A). f o ++ l) (gather-append os ps)
      ∙ sym (append_assoc (f o) (gather os) (gather ps))

pub quiet :
    {A : Type 0} (before later : List A) {all : List A}
    → before ++ later ≡ all
    → before ++ [] ++ later ≡ all
quiet {A = A} before later h = ap (λ (l : List A). l ++ later) (append-nil before) ∙ h

pub run-append :
    (steps : List Text) (s : ShutdownState) (es fs : List ShutdownEvent)
    → (run steps s (es ++ fs)).0 ≡ (run steps (run steps s es).0 fs).0
unfolding run
run-append steps s [] fs = refl
run-append steps s (e ∷ es) fs = run-append steps (react steps s e).0 es fs

-- `f` of the outputs so far, followed by `rest` of the state, is `all` of the state.
module _ {A : Type 0} (f : ShutdownOutput → List A) (rest all : ShutdownState → List A) where
  abbrev pub Keeps : List A → ShutdownState → Type 0
  Keeps before s = before ++ rest s ≡ all s

  pub run-Keeps :
      (steps : List Text)
      → ((before : List A) (s : ShutdownState) (e : ShutdownEvent)
          → Keeps before s
          → Keeps (before ++ gather f (react steps s e).1) (react steps s e).0)
      → (before : List A) (s : ShutdownState) (es : List ShutdownEvent) → Keeps before s
      → Keeps (before ++ gather f (run steps s es).1) (run steps s es).0
  unfolding run
  run-Keeps steps kept before s [] h = subst (λ (l : List A). Keeps l s) (sym (append-nil before)) h
  run-Keeps steps kept before s (e ∷ es) h =
      let now : List ShutdownOutput = (react steps s e).1 in
      let later : List ShutdownOutput = (run steps (react steps s e).0 es).1 in
      subst (λ (l : List A). Keeps l (run steps (react steps s e).0 es).0)
        (append_assoc before (gather f now) (gather f later)
          ∙ ap (λ (l : List A). before ++ l) (sym (gather-append f now later)))
        (run-Keeps steps kept (before ++ gather f now) (react steps s e).0 es (kept before s e h))
