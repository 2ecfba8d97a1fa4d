-- ===== src/Jobs/Names.antt =====
-- The types of src/jobs/registry.ts: the names of the jobs as a closed type, and what a name says of
-- its payload and its result.
pub mod Laws
use queue_worker_kit.Prelude.{ℕ, Text, codes, List, [], ◌∷◌, Bool, true, false}
use queue_worker_kit.Values.{nat}
use queue_worker_kit.Json.{Json, bool, num, str, obj, end, field}
use queue_worker_kit.Jobs.Types.{JobDefinition, Zod}
use queue_worker_kit.Jobs.Definitions.{send_email_job, generate_report_job, cleanup_job}
use queue_worker_kit.Jobs.Processors.Email.{SendEmailPayload, SendEmailResult}
use queue_worker_kit.Jobs.Processors.Report.{Format, csv, json, GenerateReportResult}
use queue_worker_kit.Jobs.Processors.Cleanup.{CleanupPayload, CleanupResult}

-- `JobName`
pub data JobName : Type 0 where
  email_send report_generate maintenance_cleanup : JobName

abbrev pub name_text : JobName → Text
name_text email_send = codes "email.send"
name_text report_generate = codes "report.generate"
name_text maintenance_cleanup = codes "maintenance.cleanup"

abbrev pub job_name_list : List JobName
job_name_list = email_send ∷ report_generate ∷ maintenance_cleanup ∷ []

pub record GenerateReportPayload : Type 0 where
  pub report_id : Text
  pub requested_by : Text
  pub format : Format

-- `PayloadOf<TName>` and `ResultOf<TName>`
abbrev pub PayloadOf : JobName → Type 0
PayloadOf email_send = SendEmailPayload
PayloadOf report_generate = GenerateReportPayload
PayloadOf maintenance_cleanup = CleanupPayload

abbrev pub ResultOf : JobName → Type 0
ResultOf email_send = SendEmailResult
ResultOf report_generate = GenerateReportResult
ResultOf maintenance_cleanup = CleanupResult

-- `getJobDefinition(name)` at a name of the type.
abbrev pub job_definition : Zod → JobName → JobDefinition
job_definition zod email_send = send_email_job zod
job_definition zod report_generate = generate_report_job zod
job_definition zod maintenance_cleanup = cleanup_job zod

abbrev pub format_text : Format → Text
format_text csv = codes "csv"
format_text json = codes "json"

-- A payload and a result as JSON: what the producer hands over, and what BullMQ stores.
unfoldable pub payload_json : (name : JobName) → PayloadOf name → Json
payload_json email_send p = obj (
    field (codes "to") (str p.to)
      (field (codes "template") (str p.template) (field (codes "userId") (str p.user_id) end)))
payload_json report_generate p = obj (
    field (codes "reportId") (str p.report_id) (
      field (codes "requestedBy") (str p.requested_by)
        (field (codes "format") (str (format_text p.format)) end)))
payload_json maintenance_cleanup p =
    obj (field (codes "before") (str p.before) (field (codes "dryRun") (bool p.dry_run) end))

unfoldable pub result_json : (name : JobName) → ResultOf name → Json
result_json email_send r = obj (
    field (codes "delivered") (bool true) (
      field (codes "providerMessageId") (str r.provider_message_id)
        (field (codes "template") (str r.template) end)))
result_json report_generate r = obj (
    field (codes "reportId") (str r.report_id) (
      field (codes "format") (str (format_text r.format)) (
        field (codes "generatedRows") (num (nat r.generated_rows))
          (field (codes "bytes") (num (nat r.bytes)) end))))
result_json maintenance_cleanup r = obj (
    field (codes "before") (str r.before) (
      field (codes "dryRun") (bool r.dry_run) (
        field (codes "scanned") (num (nat r.scanned))
          (field (codes "removed") (num (nat r.removed)) end))))
