-- ===== src/Processes/Configuration.antt =====
-- A configuration that is refused, in both processes: src/config/env.ts with the `main().catch` of
-- src/worker/server.ts and src/api/server.ts.
use queue_worker_kit.Prelude.{Text, codes, ◌++◌, List, [], ◌∷◌}
use queue_worker_kit.Config.Env.{Env, Variables}
use queue_worker_kit.Values.{Issue}
use queue_worker_kit.Processes.{Startup, config_report, write_stderr, set_exit_code}

-- The message, written out: a heading, and a line for each issue, with the path to its variable and
-- what is wrong with it. A list without an issue, which no validator reports, leaves a bare dash.
abbrev path_text : List Text → Text
path_text [] = codes "(root)"
path_text (name ∷ []) = name
path_text (name ∷ part ∷ path) = name ++ (codes "." ++ path_text (part ∷ path))

abbrev line_start : Text
line_start = 10 ∷ codes "  - "

abbrev lines_text : List Issue → Text
lines_text [] = line_start
lines_text (i ∷ []) = line_start ++ (path_text i.path ++ (codes " " ++ i.message))
lines_text (i ∷ j ∷ is) =
    line_start ++ ((path_text i.path ++ (codes " " ++ i.message)) ++ lines_text (j ∷ is))

abbrev pub refusal_text : List Issue → Text
refusal_text issues = codes "Invalid environment configuration:" ++ lines_text issues

-- All that a process does where its configuration is refused.
abbrev pub refused : List Issue → List Startup
refused issues = write_stderr (config_report (refusal_text issues)) ∷ set_exit_code ∷ []
