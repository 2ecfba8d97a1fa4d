-- ===== src/Jobs/Registry.antt =====
-- src/jobs/registry.ts: the closed set of jobs, and how a stored job reaches its processor. `Work`
-- is the type of the promises that processors return.
pub mod Laws
use queue_worker_kit.Prelude.{
  ℕ, Text, codes, text_eq, join, ◌++◌, List, [], ◌∷◌, map, keep, Bool, true, false, Option, none,
  some, if◌then◌else◌, is_some, ◌||◌,
}
use queue_worker_kit.Dictionary.{Dictionary, lookup, insert, insert_all, keys}
use queue_worker_kit.Values.{Issue, kit, payload_validation, Completion, normal, throw, ◌>>=◌}
use queue_worker_kit.Json.{Json}
use queue_worker_kit.Jobs.Types.{
  Parsed, success, failure, JobDefinition, JobMeta, JobEnvelope, ProcessorContext, Zod,
}
use queue_worker_kit.Jobs.Definitions.{send_email_job, generate_report_job, cleanup_job}

unfoldable pub job_definitions : Zod → Dictionary JobDefinition
unfolding send_email_job generate_report_job cleanup_job
job_definitions zod =
    ((send_email_job zod).name, send_email_job zod)
    ∷ ((generate_report_job zod).name, generate_report_job zod)
    ∷ ((cleanup_job zod).name, cleanup_job zod)
    ∷ []

unfoldable pub job_names : Zod → List Text
unfolding job_definitions keys
job_names zod = keys (job_definitions zod)

-- `jobDefinitions[name]`
unfoldable pub get_job_definition : Zod → Text → Option JobDefinition
unfolding job_definitions lookup
get_job_definition zod name = lookup name (job_definitions zod)

unfoldable pub is_job_name : Zod → Text → Bool
unfolding get_job_definition
is_job_name zod name = is_some (get_job_definition zod name)

abbrev queue_of : Option JobDefinition → Option Text
queue_of none = none
queue_of (some definition) = some definition.queue

unfoldable pub queue_for_job : Zod → Text → Option Text
unfolding get_job_definition
queue_for_job zod name = queue_of (get_job_definition zod name)

abbrev or_root : Text → Text
or_root [] = codes "(root)"
or_root (c ∷ s) = c ∷ s

-- `prefix.length > 0 && path.length > 0 ? `${prefix}.${path}` : prefix + path`
abbrev prefixed : Text → Text → Text
prefixed [] path = path
prefixed (c ∷ prefix) [] = c ∷ prefix
prefixed (c ∷ prefix) (d ∷ path) = (c ∷ prefix) ++ (b'.' ∷ d ∷ path)

unfoldable pub issue_text : Text → Issue → Text
issue_text prefix issue =
    or_root (prefixed prefix (join (codes ".") issue.path)) ++ (codes ": " ++ issue.message)

unfoldable pub issues_of : List Issue → Text → List Text
unfolding issue_text
issues_of issues prefix = map (issue_text prefix) issues

abbrev pub quoted : Text → Text
quoted s = codes "\"" ++ (s ++ codes "\"")

-- `safeParse` followed by the throw of a `PayloadValidationError`.
unfoldable pub parsed_or_throw {ℓ} : {A : Type ℓ} → Text → Text → Parsed A → Completion A
unfolding issues_of
parsed_or_throw message prefix (success a) = normal a
parsed_or_throw message prefix (failure issues) =
    throw (kit (payload_validation message (issues_of issues prefix)))

-- What an invocation hands over: the metadata, and the promise of the processor that it called.
pub record Invoked (Work : Type 0) : Type 0 where
  pub meta : JobMeta
  pub work : Work

-- A definition bound to the function that runs it. `on_validated` gives the attempt's number.
pub record RegisteredJob (Work : Type 0) : Type 0 where
  pub definition : JobDefinition
  pub invoke : Json → (JobMeta → ℕ) → Completion (Invoked Work)

-- The processors of the three definitions, in the order of `createJobRegistry`.
pub record Processors (Work : Type 0) : Type 0 where
  pub email : ProcessorContext → Work
  pub report : ProcessorContext → Work
  pub cleanup : ProcessorContext → Work

pub record JobRegistry (Work : Type 0) : Type 0 where
  pub entries : List (RegisteredJob Work)
  pub by_name : Dictionary (RegisteredJob Work)

module _ {Work : Type 0} where
  unfoldable pub register : Zod → JobDefinition → (ProcessorContext → Work) → RegisteredJob Work
  register zod definition process = record {
    definition = definition;
    invoke = λ stored on_validated. do
      envelope ←
          parsed_or_throw (codes "Invalid job envelope for " ++ quoted definition.name) []
            (zod.parse_envelope stored)
      payload ←
          parsed_or_throw (codes "Invalid payload for job " ++ quoted definition.name)
            (codes "payload") (definition.schema envelope.payload)
      normal (record {
        meta = envelope.meta;
        work = process (record {
          payload = payload;
          correlation_id = envelope.meta.correlation_id;
          attempt = on_validated envelope.meta;
        });
      });
  }

  abbrev with_name : RegisteredJob Work → Text × RegisteredJob Work
  with_name entry = (entry.definition.name, entry)

  unfoldable pub create_job_registry : Zod → Processors Work → JobRegistry Work
  unfolding register insert_all insert send_email_job generate_report_job cleanup_job
  create_job_registry zod processors =
      let entries : List (RegisteredJob Work) =
        register zod (send_email_job zod) processors.email
        ∷ register zod (generate_report_job zod) processors.report
        ∷ register zod (cleanup_job zod) processors.cleanup
        ∷ [] in
      record { entries = entries; by_name = insert_all (map with_name entries) [] }

  unfoldable pub registry_get : JobRegistry Work → Text → Option (RegisteredJob Work)
  unfolding lookup
  registry_get registry name = lookup name registry.by_name

  unfoldable pub registry_names : JobRegistry Work → List Text
  unfolding keys
  registry_names registry = keys registry.by_name

  unfoldable pub names_for_queue : JobRegistry Work → Text → List Text
  names_for_queue registry queue =
      map (λ entry. entry.definition.name)
        (keep (λ entry. text_eq entry.definition.queue queue) registry.entries)
