-- ===== src/Dev/Supervisor/Laws.antt =====
-- When and with what both processes are stopped (scripts/dev.mjs).
use mathlib.Core.List.{append-nil}
use queue_worker_kit.Prelude.{
  ℕ, map, or_else, ◌≡◌, refl, ap, ◌∙◌, arith, any, Text, codes, List, [], ◌∷◌, ◌++◌, Bool, true,
  false, Option, none, some, if◌then◌else◌,
}
use queue_worker_kit.Dev.{Target}
use queue_worker_kit.Dev.Supervisor.{
  DevEvent, signalled, exited, failed, DevEffect, kill, write_stderr, DevState, running, shutdown,
  handle, supervise,
}

-- The signals that were sent to the children.
abbrev pub kills : List DevEffect → List DevEffect
kills [] = []
kills (kill label name ∷ es) = kill label name ∷ kills es
kills (write_stderr t ∷ es) = kills es

kills-append : (es fs : List DevEffect) → kills (es ++ fs) ≡ kills es ++ kills fs
kills-append [] fs = refl
kills-append (kill label name ∷ es) fs = ap (◌∷◌ (kill label name)) (kills-append es fs)
kills-append (write_stderr t ∷ es) fs = kills-append es fs

kills-map :
    (name : Text) (children : List Target)
    → kills (map (λ child. kill child.label name) children)
      ≡ map (λ child. kill child.label name) children
kills-map name [] = refl
kills-map name (t ∷ ts) = ap (◌∷◌ (kill t.label name)) (kills-map name ts)

abbrev pub is_failure : DevEvent → Bool
is_failure (failed label message) = true
is_failure _ = false

-- What the first event calls for: the signal that is passed on, and the exit code.
abbrev pub sent : DevEvent → Text
sent (signalled name) = name
sent _ = codes "SIGTERM"

abbrev pub code_of : DevEvent → Option ℕ
code_of (signalled name) = none
code_of (exited label code name) = some (or_else code 1)
code_of (failed label message) = some 1

module _ (children : List Target) where
  abbrev stopping : Option ℕ → DevState
  stopping code = record { shutting_down = true; exit_code = code }

  -- Once the flag is set, only the exit code can change, and nothing is sent.
  supervise-stopping :
      (events : List DevEvent) (code : Option ℕ)
      → ((supervise children (stopping code) events).0
          ≡ stopping (if any is_failure events then some 1 else code))
        × (kills (supervise children (stopping code) events).1 ≡ [])
  unfolding supervise handle shutdown
  supervise-stopping [] code = (refl, refl)
  supervise-stopping (signalled name ∷ events) code = supervise-stopping events code
  supervise-stopping (exited label c name ∷ events) code = supervise-stopping events code
  supervise-stopping (failed label message ∷ events) code =
      let (s, k) = supervise-stopping events (some 1) in (ground (arith, s), k)

  kills_sent :
      (name : Text) (later : List DevEffect)
      → kills later ≡ []
      → kills (map (λ child. kill child.label name) children ++ later)
        ≡ map (λ child. kill child.label name) children
  kills_sent name later h =
      kills-append (map (λ child. kill child.label name) children) later
      ∙ simp (kills-map name children, h, append-nil)

  -- The first event of the life of both processes, be it a signal, the end of a child or its error,
  -- makes the supervisor send one signal to each child, in order: the one that it got, or SIGTERM.
  -- No later event sends another. The exit code is 1 if any child has failed, even during a
  -- shutdown; else it is that of the child whose end came first (1 if it has none), and is not set
  -- after a signal.
  pub supervise_stops :
      (e : DevEvent) (events : List DevEvent)
      → let r = supervise children running (e ∷ events) in
        (r.0 ≡ stopping (if any is_failure (e ∷ events) then some 1 else code_of e))
        × (kills r.1 ≡ map (λ child. kill child.label (sent e)) children)
  unfolding supervise handle shutdown
  supervise_stops (signalled name) events =
      let (s, k) = supervise-stopping events none in (s, kills_sent name _ k)
  supervise_stops (exited label c name) events =
      let (s, k) = supervise-stopping events (some (or_else c 1)) in
      (s, kills_sent (codes "SIGTERM") _ k)
  supervise_stops (failed label message) events =
      let (s, k) = supervise-stopping events (some 1) in
      (ground (arith, s), kills_sent (codes "SIGTERM") _ k)
