-- ===== src/Jobs/Registry/Laws.antt =====
-- Producers and consumers agree on the jobs, and a stored job is checked before it runs.
use queue_worker_kit.Prelude.{
  ℕ, Text, codes, text_eq, text_eq_iff, text_eq_refl, [], ◌∷◌, Bool, true, false, Option, none,
  some, any, any-map-keep, ◌&&◌, ◌≡◌, ◌≢◌, ◌↔◌, refl, sym, subst, arith, ◌||◌, Bool-cases, inl, inr,
}
use queue_worker_kit.Values.{
  Value, Host, kit_non_retryable, normal, >>=-eq-throw, throw, kit, payload_validation,
}
use queue_worker_kit.Config.Defaults.{worker_queue_names, dead_letter, email, reports, maintenance}
use queue_worker_kit.Errors.{classify_error, non_retryable_class}
use queue_worker_kit.Errors.Laws.{classify_error-kit}
use queue_worker_kit.Json.{Json}
use queue_worker_kit.Jobs.Types.{
  Parsed, success, failure, JobDefinition, JobMeta, ProcessorContext, Zod,
}
use queue_worker_kit.Jobs.Definitions.{send_email_job, generate_report_job, cleanup_job}
use queue_worker_kit.Jobs.Registry.{
  get_job_definition, queue_for_job, register, issues_of, parsed_or_throw, RegisteredJob,
  Processors, create_job_registry, registry_get, names_for_queue,
}

abbrev pub definition_of : {Work : Type 0} → Option (RegisteredJob Work) → Option JobDefinition
definition_of none = none
definition_of (some entry) = some entry.definition

abbrev pub email_name : Text
email_name = codes "email.send"

abbrev pub report_name : Text
report_name = codes "report.generate"

abbrev pub cleanup_name : Text
cleanup_name = codes "maintenance.cleanup"

-- A text is one of the three job names, or none of them.
pub data NameCase (name : Text) : Type 0 where
  is_email : name ≡ email_name → NameCase name
  is_report : name ≡ report_name → NameCase name
  is_cleanup : name ≡ cleanup_name → NameCase name
  is_other :
      text_eq email_name name ≡ false
      → text_eq report_name name ≡ false
      → text_eq cleanup_name name ≡ false
      → NameCase name

pub name_case : (name : Text) → NameCase name
name_case name = elim (Bool-cases (text_eq email_name name)) [
  | inl e ↦ is_email (sym ((text_eq_iff email_name name).0 e))
  | inr ne ↦ elim (Bool-cases (text_eq report_name name)) [
    | inl r ↦ is_report (sym ((text_eq_iff report_name name).0 r))
    | inr nr ↦ elim (Bool-cases (text_eq cleanup_name name)) [
      | inl c ↦ is_cleanup (sym ((text_eq_iff cleanup_name name).0 c))
      | inr nc ↦ is_other ne nr nc
    ]
  ]
]

module _ {Work : Type 0} (zod : Zod) (processors : Processors Work) where
  pub by_name_eq :
      (create_job_registry zod processors).by_name
      ≡ (email_name, register zod (send_email_job zod) processors.email)
        ∷ (report_name, register zod (generate_report_job zod) processors.report)
        ∷ (cleanup_name, register zod (cleanup_job zod) processors.cleanup)
        ∷ []
  unfolding create_job_registry text_eq
  by_name_eq = refl

  -- The worker has an entry for exactly the names that the producer accepts, with the definition
  -- that the producer validates by and takes the queue from.
  pub registry_get-eq-get_job_definition :
      (name : Text)
      → definition_of (registry_get (create_job_registry zod processors) name)
        ≡ get_job_definition zod name
  unfolding registry_get get_job_definition register
  registry_get-eq-get_job_definition name = rw by_name_eq (ground arith)

pub definition_by_name :
    (zod : Zod)
    → (get_job_definition zod email_name ≡ some (send_email_job zod))
      × (get_job_definition zod report_name ≡ some (generate_report_job zod))
      × (get_job_definition zod cleanup_name ≡ some (cleanup_job zod))
unfolding get_job_definition text_eq
definition_by_name zod = (refl, refl, refl)

pub definition_of_other :
    (zod : Zod) (name : Text)
    → text_eq email_name name ≡ false
    → text_eq report_name name ≡ false
    → text_eq cleanup_name name ≡ false
    → get_job_definition zod name ≡ none
unfolding get_job_definition
definition_of_other zod name e r c = rw (e, r, c) refl

queue_by_name :
    (zod : Zod)
    → (queue_for_job zod email_name ≡ some email)
      × (queue_for_job zod report_name ≡ some reports)
      × (queue_for_job zod cleanup_name ≡ some maintenance)
unfolding queue_for_job text_eq
queue_by_name zod = (refl, refl, refl)

queue_of_other :
    (zod : Zod) (name : Text)
    → text_eq email_name name ≡ false
    → text_eq report_name name ≡ false
    → text_eq cleanup_name name ≡ false
    → queue_for_job zod name ≡ none
unfolding queue_for_job
queue_of_other zod name e r c = rw (e, r, c) refl

abbrev IsConsumed : Text → Type 0
IsConsumed queue = (any (text_eq queue) worker_queue_names ≡ true) × (queue ≢ dead_letter)

IsConsumed-queues : IsConsumed email × IsConsumed reports × IsConsumed maintenance
unfolding text_eq
IsConsumed-queues = ((refl, ground arith), (refl, ground arith), (refl, ground arith))

IsConsumed-of_eq :
    (q queue : Text) {o : Option Text}
    → o ≡ some q
    → o ≡ some queue
    → IsConsumed q
    → IsConsumed queue
IsConsumed-of_eq q queue e h c = let same : q ≡ queue = ground arith in subst IsConsumed same c

-- A job never lands on the dead-letter queue, and always on a queue that workers consume.
pub queue_for_job-worker :
    (zod : Zod) (name queue : Text)
    → queue_for_job zod name ≡ some queue
    → (any (text_eq queue) worker_queue_names ≡ true) × (queue ≢ dead_letter)
queue_for_job-worker zod name queue h = elim (name_case name) [
  | is_email e ↦ IsConsumed-of_eq email queue (queue_by_name zod).0 (rw e at h) IsConsumed-queues.0
  | is_report e ↦
      IsConsumed-of_eq reports queue (queue_by_name zod).1 (rw e at h) IsConsumed-queues.1
  | is_cleanup e ↦
      IsConsumed-of_eq maintenance queue (queue_by_name zod).2 (rw e at h) IsConsumed-queues.2
  | is_other e r c ↦ cc (queue_of_other zod name e r c)
]

names_differ :
    (text_eq email_name report_name ≡ false)
    × (text_eq email_name cleanup_name ≡ false)
    × (text_eq report_name email_name ≡ false)
    × (text_eq report_name cleanup_name ≡ false)
    × (text_eq cleanup_name email_name ≡ false)
    × (text_eq cleanup_name report_name ≡ false)
unfolding text_eq
names_differ = (refl, refl, refl, refl, refl, refl)

module _ {Work : Type 0} (zod : Zod) (processors : Processors Work) where
  abbrev runs : Text → Text → Bool
  runs queue name = any (text_eq name) (names_for_queue (create_job_registry zod processors) queue)

  runs_eq :
      (queue name : Text)
      → runs queue name
        ≡ (text_eq email queue && text_eq name email_name)
          || ((text_eq reports queue && text_eq name report_name)
              || ((text_eq maintenance queue && text_eq name cleanup_name) || false))
  unfolding names_for_queue create_job_registry
  runs_eq queue name =
      any-map-keep (text_eq name) (λ (entry : RegisteredJob Work). entry.definition.name)
        (λ entry. text_eq entry.definition.queue queue) (create_job_registry zod processors).entries

  -- A queue's workers run exactly the jobs that the producer sends to that queue.
  pub names_for_queue_iff :
      (queue name : Text)
      → (any (text_eq name) (names_for_queue (create_job_registry zod processors) queue) ≡ true)
        ↔ (queue_for_job zod name ≡ some queue)
  names_for_queue_iff queue name = elim (name_case name) [
    | is_email e ↦
        rw (e, runs_eq queue email_name, (queue_by_name zod).0)
          (ground (arith, text_eq_refl email_name, names_differ, text_eq_iff email queue))
    | is_report e ↦
        rw (e, runs_eq queue report_name, (queue_by_name zod).1)
          (ground (arith, text_eq_refl report_name, names_differ, text_eq_iff reports queue))
    | is_cleanup e ↦
        rw (e, runs_eq queue cleanup_name, (queue_by_name zod).2)
          (ground (arith, text_eq_refl cleanup_name, names_differ, text_eq_iff maintenance queue))
    | is_other e r c ↦
        rw (runs_eq queue name, queue_of_other zod name e r c)
          (ground (
            arith,
            text_eq_iff email_name name,
            text_eq_iff name email_name,
            text_eq_iff report_name name,
            text_eq_iff name report_name,
            text_eq_iff cleanup_name name,
            text_eq_iff name cleanup_name,
          ))
  ]

-- What a failed parse throws is classified as not retryable.
pub parsed_or_throw-non_retryable :
    {A : Type 0} (host : Host) (message prefix : Text) (r : Parsed A) {v : Value}
    → parsed_or_throw message prefix r ≡ throw v
    → classify_error host v ≡ normal non_retryable_class
unfolding parsed_or_throw kit_non_retryable
parsed_or_throw-non_retryable host message prefix (success a) h = cc
parsed_or_throw-non_retryable host message prefix (failure issues) {v} h =
    let e : kit (payload_validation message (issues_of issues prefix)) ≡ v = ground arith in
    rw (← e) (classify_error-kit host (payload_validation message (issues_of issues prefix)))

-- Whatever is stored, an invocation that throws before its processor runs throws an error that
-- is classified as not retryable.
pub invoke-throws :
    {Work : Type 0} (host : Host) (zod : Zod) (definition : JobDefinition)
    (process : ProcessorContext → Work) (stored : Json) (attempt : JobMeta → ℕ) (v : Value)
    → (register zod definition process).invoke stored attempt ≡ throw v
    → classify_error host v ≡ normal non_retryable_class
unfolding register
invoke-throws host zod definition process stored attempt v h =
    elim (>>=-eq-throw (parsed_or_throw _ [] (zod.parse_envelope stored)) _ h) [
      | inl bad ↦ parsed_or_throw-non_retryable host _ [] (zod.parse_envelope stored) bad
      | inr (envelope, _, later) ↦
          elim (>>=-eq-throw (parsed_or_throw _ _ (definition.schema envelope.payload)) _ later) [
            | inl bad ↦
                parsed_or_throw-non_retryable host _ _ (definition.schema envelope.payload) bad
            | inr (payload, _, never) ↦ cc
          ]
    ]
