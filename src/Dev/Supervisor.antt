-- ===== src/Dev/Supervisor.antt =====
-- The supervision of both processes in scripts/dev.mjs, as a machine over the events of Node.
pub mod Laws
use queue_worker_kit.Prelude.{
  ℕ, map, or_else, decimal, Text, codes, List, [], ◌∷◌, ◌++◌, Bool, true, false, Option, none, some,
  if◌then◌else◌,
}
use queue_worker_kit.Dev.{Target}

-- A signal to this process, the end of a child with its code or signal, and a child's error.
pub data DevEvent : Type 0 where
  signalled : Text → DevEvent
  exited : Text → Option ℕ → Option Text → DevEvent
  failed : Text → Text → DevEvent

pub data DevEffect : Type 0 where
  kill : Text → Text → DevEffect
  write_stderr : Text → DevEffect

-- The two variables: the flag, and `process.exitCode` where it has been set.
pub record DevState : Type 0 where
  pub shutting_down : Bool
  pub exit_code : Option ℕ

abbrev pub running : DevState
running = record { shutting_down = false; exit_code = none }

unfoldable pub shutdown : List Target → Text → DevState → DevState × List DevEffect
shutdown children name s =
    if s.shutting_down
    then (s, [])
    else (record s { shutting_down = true }, map (λ child. kill child.label name) children)

code_text : Option ℕ → Text
code_text none = codes "null"
code_text (some code) = decimal code

unfoldable pub exit_report : Text → Option ℕ → Option Text → Text
unfolding code_text
exit_report label code name =
    codes "[dev] "
    ++ (label
        ++ (codes " exited (code "
            ++ (code_text code
                ++ (codes ", signal " ++ (or_else name (codes "none") ++ codes ")\n")))))

unfoldable pub failure_report : Text → Text → Text
failure_report label message =
    codes "[dev] failed to start " ++ (label ++ (codes ": " ++ (message ++ codes "\n")))

unfoldable pub handle : List Target → DevState → DevEvent → DevState × List DevEffect
unfolding shutdown exit_report failure_report
handle children s (signalled name) = shutdown children name s
handle children s (exited label code name) =
    let (s', es) =
      shutdown children (codes "SIGTERM") (record s { exit_code = some (or_else code 1) }) in
    if s.shutting_down then (s, []) else (s', write_stderr (exit_report label code name) ∷ es)
handle children s (failed label message) =
    let (s', es) = shutdown children (codes "SIGTERM") (record s { exit_code = some 1 }) in
    (s', write_stderr (failure_report label message) ∷ es)

unfoldable pub supervise : List Target → DevState → List DevEvent → DevState × List DevEffect
unfolding handle
supervise children s [] = (s, [])
supervise children s (e ∷ events) =
    let (s', es) = handle children s e in
    let (last, later) = supervise children s' events in (last, es ++ later)
