-- ===== src/Processes.antt =====
-- The two processes, src/worker/server.ts and src/api/server.ts: what a start does, in order, and
-- the steps that a shutdown will run.
pub mod Worker
pub mod Api
pub mod Configuration
pub mod Draining
use queue_worker_kit.Prelude.{ℕ, Text, codes, ◌++◌, List, [], ◌∷◌, map, Bool, Option, if◌then◌else◌}
use queue_worker_kit.Values.{
  Value, kit, config, kit_message, KitError, Completion, normal, throw, Host,
}
use queue_worker_kit.Utils.SerializeError.{SerializedError, serialize_error}
use queue_worker_kit.Observability.Effects.{Effect, Traced}
use queue_worker_kit.Api.Setup.{AppStep, Setup}

-- What a start opens, and a shutdown is to close.
pub data Resource : Type 0 where
  redis queues queue_events workers metrics_server http_server : Resource

-- What the `run` of a step does: it flips the flag of the health checks, at once or with a pause of
-- so many milliseconds, waits for the dead-letter writes, or closes a resource.
pub data StepAction : Type 0 where
  mark_draining drain_dead_letters : StepAction
  drain_readiness : ℕ → StepAction
  close : Resource → StepAction

pub record ShutdownStep : Type 0 where
  pub name : Text
  pub action : StepAction

-- What `main().catch` writes to `stderr`: a configuration error's message, or that the process
-- failed to start, with the serialised error.
pub data Report : Type 0 where
  config_report : Text → Report
  failed_to_start : Text → SerializedError → Report

-- `install_signal_handlers` carries the steps of its controller.
pub data Startup : Type 0 where
  did : Effect → Startup
  opened : Resource → Startup
  install_signal_handlers : List ShutdownStep → Startup
  configured : AppStep → Startup
  write_stderr : Report → Startup
  set_exit_code : Startup

abbrev pub Start {ℓ} : Type ℓ → Type ℓ
Start A = Traced Startup A

-- Setting up an HTTP server, as a part of a start.
abbrev pub configures : {A : Type 0} → Setup A → Start A
configures (r, steps) = (r, map configured steps)

-- `error instanceof ConfigError`
report : Host → Text → Value → Report
report host process (kit (config issues)) = config_report (kit_message (config issues))
report host process v = failed_to_start process (serialize_error host v 0)

-- `main().catch(…)`: the exit code is set to 1, and the process is not told to exit.
unfoldable pub caught : Host → Text → Start (Unit {0}) → List Startup
unfolding report
caught host process (normal u, es) = es
caught host process (throw v, es) = es ++ write_stderr (report host process v) ∷ set_exit_code ∷ []
