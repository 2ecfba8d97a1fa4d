-- ===== src/Worker/Shutdown/Waits.antt =====
-- No step of a shutdown starts before those that are declared before it have ended
-- (src/worker/graceful-shutdown.ts).
use mathlib.Core.List.{append_cancel_right, append_assoc, append-nil}
use queue_worker_kit.Prelude.{
  ◌≡◌, refl, ap, sym, ◌∙◌, arith, Text, text_eq, any, ◌++◌, List, [], ◌∷◌, true, false,
}
use queue_worker_kit.Worker.Shutdown.{ShutdownState, idle, active, ShutdownEvent, run}
use queue_worker_kit.Worker.Shutdown.Trace.{gather}
use queue_worker_kit.Worker.Shutdown.Order.{
  started_step, ended_step, unended, unstarted, run-in_order,
}

abbrev pub Member : Text → List Text → Type 0
Member name names = any (text_eq name) names ≡ true

cons-parts : {A : Type 0} {x y : A} {xs ys : List A} → x ∷ xs ≡ y ∷ ys → (x ≡ y) × (xs ≡ ys)
cons-parts h = (cc, cc)

-- A prefix of the list that has the name reaches it.
reaches :
    (name : Text) (xs ys before after : List Text)
    → any (text_eq name) before ≡ false
    → Member name xs
    → xs ++ ys ≡ before ++ name ∷ after
    → (more : List Text) × (xs ≡ before ++ name ∷ more)
reaches name [] ys before after apart has h = cc
reaches name (x ∷ xs) ys [] after apart has h = (xs, ap (λ n. n ∷ xs) (cons-parts h).0)
reaches name (x ∷ xs) ys (b ∷ before) after apart has h =
    let (same, rest) = cons-parts h in
    let (more, e) =
      reaches name xs ys before after (ground (arith, apart))
        (ground (arith, apart, has, ap (text_eq name) same)) rest in
    (more, ground (arith, same, e))

all_but_last :
    (xs : List Text) (x name : Text) (before more : List Text)
    → xs ++ x ∷ [] ≡ before ++ name ∷ more
    → (rest : List Text) × (xs ≡ before ++ rest)
all_but_last xs x name [] more h = (xs, refl)
all_but_last [] x name (b ∷ []) more h = cc (cons-parts h).1
all_but_last [] x name (b ∷ c ∷ before) more h = cc (cons-parts h).1
all_but_last (y ∷ xs) x name (b ∷ before) more h =
    let (same, rest) = cons-parts h in
    let (left, e) = all_but_last xs x name before more rest in (left, ground (arith, same, e))

module _ (before : List Text) (name : Text) (after : List Text)
    (apart : any (text_eq name) before ≡ false) where
  abbrev steps : List Text
  steps = before ++ name ∷ after

  waits :
      (s : ShutdownState) (ended started : List Text)
      → ended ++ unended steps s ≡ steps
      → started ++ unstarted steps s ≡ steps
      → Member name started
      → (rest : List Text) × (ended ≡ before ++ rest)
  waits idle ended started e f has =
      let nothing : started ≡ [] = append_cancel_right started [] steps f in cc (rw nothing at has)
  waits (active [] outcome due) ended started e f has = (name ∷ after, sym (append-nil ended) ∙ e)
  waits (active (t ∷ todo) outcome due) ended started e f has =
      let (more, reached) = reaches name started todo before after apart has f in
      let same =
        append_cancel_right (ended ++ t ∷ []) started todo
          (append_assoc ended (t ∷ []) todo ∙ e ∙ sym f) in
      all_but_last ended t name before more (same ∙ reached)

  -- In every sequence of events, if a step has started, then every step that is declared before
  -- it has ended, in the declared order.
  pub run-waits :
      (es : List ShutdownEvent)
      → Member name (gather started_step (run steps idle es).1)
      → (rest : List Text) × (gather ended_step (run steps idle es).1 ≡ before ++ rest)
  run-waits es has = let (e, f) = run-in_order steps es in waits (run steps idle es).0 _ _ e f has

  -- The steps that have started are then all that are declared before it, it, and later ones.
  pub run-reaches :
      (es : List ShutdownEvent)
      → Member name (gather started_step (run steps idle es).1)
      → (more : List Text) × (gather started_step (run steps idle es).1 ≡ before ++ name ∷ more)
  run-reaches es has = reaches name _ _ before after apart has (run-in_order steps es).1
