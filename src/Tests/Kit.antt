-- ===== src/Tests/Kit.antt =====
-- Concrete processors, queues and a caller.
use queue_worker_kit.Prelude.{Text, codes, false, none, some}
use queue_worker_kit.Config.Defaults.{all_queue_names}
use queue_worker_kit.Values.{normal, undefined}
use queue_worker_kit.Jobs.Registry.{Processors}
use queue_worker_kit.Queue.Registry.{Queue, QueueRegistry, create_queue_registry}
use queue_worker_kit.Queue.Enqueue.Prepare.{Caller}
use queue_worker_kit.Utils.Sleep.{Signal}

abbrev pub test_processors : Processors (Unit {0})
test_processors = record { email = λ c. tt; report = λ c. tt; cleanup = λ c. tt }

abbrev pub answering : Text → Queue
answering name = record { name = name; add = λ n j o. normal (some (codes "1")) }

abbrev pub test_queues : QueueRegistry
test_queues = create_queue_registry answering all_queue_names

abbrev pub test_caller : Caller
test_caller = record {
  ambient = none;
  fresh = codes "request-1";
  now = codes "2026-01-01T00:00:00Z";
}

abbrev pub calm : Signal
calm = record { aborted = false; reason = undefined }
