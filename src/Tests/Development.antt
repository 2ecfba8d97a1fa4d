-- ===== src/Tests/Development.antt =====
-- The theorems on the runner of scripts/dev.mjs at concrete inputs.
use queue_worker_kit.Prelude.{
  ◌≡◌, refl, map, any, Text, codes, List, [], ◌∷◌, true, none, some, if◌then◌else◌,
}
use queue_worker_kit.Dev.{targets}
use queue_worker_kit.Dev.Forward.{prefixed, forward}
use queue_worker_kit.Dev.Forward.Laws.{lines_of, concat, forward-lines_of}
use queue_worker_kit.Dev.Supervisor.{DevEvent, signalled, exited, kill, running, supervise}
use queue_worker_kit.Dev.Supervisor.Laws.{kills, is_failure, code_of, supervise_stops}

abbrev chunks : List Text
chunks = codes "one\ntw" ∷ codes "o" ∷ codes "\n\nthr" ∷ codes "ee" ∷ []

written :
    forward (codes "api") chunks
    ≡ map codes ("[api   ] one\n" ∷ "[api   ] two\n" ∷ "[api   ] \n" ∷ "[api   ] three\n" ∷ [])
unfolding forward
written = refl

forward-lines_of_example :
    forward (codes "api") chunks ≡ map (prefixed (codes "api")) (lines_of (concat chunks))
forward-lines_of_example = forward-lines_of (codes "api") chunks

abbrev events : List DevEvent
events = exited (codes "api") none (some (codes "SIGKILL")) ∷ signalled (codes "SIGINT") ∷ []

supervise_stops_example :
    let r = supervise targets running events in
    (r.0 ≡ record {
      shutting_down = true;
      exit_code =
          if any is_failure events
          then some 1
          else code_of (exited (codes "api") none (some (codes "SIGKILL")));
    })
    × (kills r.1 ≡ map (λ child. kill child.label (codes "SIGTERM")) targets)
supervise_stops_example =
    supervise_stops targets (exited (codes "api") none (some (codes "SIGKILL")))
      (signalled (codes "SIGINT") ∷ [])
