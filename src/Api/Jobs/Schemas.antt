-- ===== src/Api/Jobs/Schemas.antt =====
-- The request schemas of src/api/routes/jobs.routes.ts, and the routes that use them.
pub mod Fields
pub mod Options
pub mod Laws
use queue_worker_kit.Prelude.{
  Text, codes, map, keep, ◌++◌, List, [], ◌∷◌, Bool, true, false, Option, none, some, or_else, not,
  if◌then◌else◌, text_eq,
}
use queue_worker_kit.Config.Defaults.{max_enqueue_delay_ms}
use queue_worker_kit.Jobs.Schemas.{
  Key, Shape, ObjectSchema, ObjectParser, object, optional, required, string, integer, has_key,
  send_email_payload_schema, generate_report_payload_schema, cleanup_payload_schema,
}

abbrev pub enqueue_options_schema : ObjectSchema
enqueue_options_schema = object (
    optional (codes "correlationId") (string 1 200)
    ∷ optional (codes "delay") (integer 0 max_enqueue_delay_ms)
    ∷ optional (codes "idempotencyKey") (string 1 200)
    ∷ [])

-- `schema.strict()`
abbrev pub strict : ObjectSchema → ObjectSchema
strict s = record s { is_strict = true }

abbrev pub email_request_schema : ObjectParser → ObjectSchema
email_request_schema z = strict (z.extend send_email_payload_schema enqueue_options_schema.shape)

abbrev pub report_request_schema : ObjectParser → ObjectSchema
report_request_schema z =
    strict (z.extend generate_report_payload_schema enqueue_options_schema.shape)

abbrev pub cleanup_request_schema : ObjectParser → ObjectSchema
cleanup_request_schema z = strict (z.extend cleanup_payload_schema enqueue_options_schema.shape)

abbrev pub job_params_schema : ObjectSchema
job_params_schema =
    object (required (codes "queue") (string 1 64) ∷ required (codes "id") (string 1 128) ∷ [])

-- The three routes that take a job, with the schema of their body and the job that they enqueue.
pub data JobRoute : Type 0 where
  email_route report_route cleanup_route : JobRoute

unfoldable pub body_schema : ObjectParser → JobRoute → ObjectSchema
body_schema z email_route = email_request_schema z
body_schema z report_route = report_request_schema z
body_schema z cleanup_route = cleanup_request_schema z

unfoldable pub job_of : JobRoute → Text
job_of email_route = codes "email.send"
job_of report_route = codes "report.generate"
job_of cleanup_route = codes "maintenance.cleanup"
