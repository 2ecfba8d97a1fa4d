-- ===== src/Jobs/Work.antt =====
-- The registry with the processors of the program (`createJobRegistry` of src/jobs/registry.ts): a
-- promise is how its processor has ended, absent while it runs.
pub mod Laws
pub mod Unsendable
use queue_worker_kit.Prelude.{
  ℕ, Text, codes, text_eq, List, [], ◌∷◌, Bool, true, false, Option, none, some, if◌then◌else◌,
}
use queue_worker_kit.Values.{Value, Completion, normal, throw, Host}
use queue_worker_kit.Json.{Json, bool, str, property}
use queue_worker_kit.Jobs.Types.{ProcessorContext, Zod}
use queue_worker_kit.Jobs.Names.{
  JobName, email_send, report_generate, maintenance_cleanup, GenerateReportPayload, PayloadOf,
  ResultOf, result_json,
}
use queue_worker_kit.Jobs.Processors.Email.{SendEmailPayload, process_email}
use queue_worker_kit.Jobs.Processors.Report.{Format, csv, json, Moment, process_report}
use queue_worker_kit.Jobs.Processors.Cleanup.{CleanupPayload, Instant, process_cleanup}
use queue_worker_kit.Jobs.Registry.{Processors, JobRegistry, create_job_registry}
use queue_worker_kit.Utils.Sleep.{Signal, Wake}
use queue_worker_kit.Worker.Race.{AttemptEvent, settles}

text_in : Option Json → Text
text_in (some (str s)) = s
text_in o = codes ""

bool_in : Option Json → Bool
bool_in (some (bool b)) = b
bool_in o = false

abbrev format_of : Text → Format
format_of s = if text_eq s (codes "csv") then csv else json

-- The properties that a processor reads of its payload, which has passed its schema: all of them
-- are there, and of their types.
unfoldable pub read_payload : (name : JobName) → Json → PayloadOf name
unfolding text_in bool_in
read_payload email_send j = record {
  to = text_in (property (codes "to") j);
  template = text_in (property (codes "template") j);
  user_id = text_in (property (codes "userId") j);
}
read_payload report_generate j = record {
  report_id = text_in (property (codes "reportId") j);
  requested_by = text_in (property (codes "requestedBy") j);
  format = format_of (text_in (property (codes "format") j));
}
read_payload maintenance_cleanup j = record {
  before = text_in (property (codes "before") j);
  dry_run = bool_in (property (codes "dryRun") j);
}

abbrev pub Work : Type 0
Work = Option (Completion Json)

abbrev pub map_completion : {A B : Type 0} → (A → B) → Completion A → Completion B
map_completion f (normal a) = normal (f a)
map_completion f (throw v) = throw v

abbrev pub as_work : (name : JobName) → Option (Completion (ResultOf name)) → Work
as_work name none = none
as_work name (some c) = some (map_completion (result_json name) c)

-- The events of an attempt that a promise makes.
abbrev pub settlement : Work → List AttemptEvent
settlement none = []
settlement (some c) = settles c ∷ []

-- What the processors of one attempt meet: the signal of the context, the callbacks of a sleep, the
-- stages of a report, `Date.now()` as a number and in base 36, and `new Date(text)`.
pub record JobWorld : Type 0 where
  pub host : Host
  pub signal : Signal
  pub wakes : List Wake
  pub moments : List Moment
  pub now : ℕ
  pub stamp : Text
  pub new_date : Text → Instant

unfoldable pub run_job :
    JobWorld → (name : JobName) → PayloadOf name → Option (Completion (ResultOf name))
run_job world email_send p = process_email world.host world.signal world.stamp p world.wakes
run_job world report_generate p = (process_report world.host p.report_id p.format world.moments).0
run_job world maintenance_cleanup p =
    process_cleanup world.host world.new_date world.now world.signal p world.wakes

unfoldable pub process : JobWorld → JobName → ProcessorContext → Work
process world name context = as_work name (run_job world name (read_payload name context.payload))

unfoldable pub program_registry : Zod → JobWorld → JobRegistry Work
program_registry zod world = create_job_registry zod (record {
  email = process world email_send;
  report = process world report_generate;
  cleanup = process world maintenance_cleanup;
})
