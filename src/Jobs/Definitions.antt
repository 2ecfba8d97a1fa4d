-- ===== src/Jobs/Definitions.antt =====
-- The definitions of src/jobs/definitions/*.job.ts.
use queue_worker_kit.Prelude.{codes, none, some}
use queue_worker_kit.Config.Defaults
use queue_worker_kit.Jobs.Types.{JobDefinition, Zod, no_options}

unfoldable pub send_email_job : Zod → JobDefinition
send_email_job zod = record {
  name = codes "email.send";
  queue = Defaults.email;
  schema = zod.send_email_payload;
  default_job_options = no_options;
  timeout_ms = none;
}

unfoldable pub generate_report_job : Zod → JobDefinition
generate_report_job zod = record {
  name = codes "report.generate";
  queue = Defaults.reports;
  schema = zod.generate_report_payload;
  default_job_options = record no_options { attempts = some 3 };
  timeout_ms = none;
}

unfoldable pub cleanup_job : Zod → JobDefinition
cleanup_job zod = record {
  name = codes "maintenance.cleanup";
  queue = Defaults.maintenance;
  schema = zod.cleanup_payload;
  default_job_options = record no_options { attempts = some 2 };
  timeout_ms = none;
}
