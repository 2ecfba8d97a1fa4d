-- ===== src/Queue/Enqueue/RoundTrip.antt =====
-- What a producer accepts, a worker accepts; and the one field that the producer does not check.
use queue_worker_kit.Prelude.{
  ℕ, ◌<◌, length, Text, text_eq, some_unique, codes, ◌++◌, List, [], some, ◌≡◌, ◌⊎◌, refl, subst,
  arith, inl, inr,
}
use queue_worker_kit.Errors.{classify_error, non_retryable_class}
use queue_worker_kit.Values.{Value, Issue, kit, payload_validation, Host, normal, throw}
use queue_worker_kit.Json.{Json}
use queue_worker_kit.Jobs.Types.{
  Zod, ZodLaws, IsValidMeta, Parsed, success, failure, JobDefinition, JobMeta, ProcessorContext,
  envelope_json,
}
use queue_worker_kit.Jobs.Definitions.{send_email_job, generate_report_job, cleanup_job}
use queue_worker_kit.Jobs.Registry.{
  RegisteredJob, get_job_definition, parsed_or_throw, issues_of, quoted, register, Processors,
  create_job_registry, registry_get,
}
use queue_worker_kit.Jobs.Registry.Laws.{
  is_email, is_report, is_cleanup, is_other, name_case, email_name, report_name, cleanup_name,
  by_name_eq, definition_by_name, definition_of_other, invoke-throws,
}
use queue_worker_kit.Queue.Registry.{Queue, QueueRegistry, get}
use queue_worker_kit.Queue.Enqueue.Prepare.{
  EnqueueOptions, Caller, Prepared, prepare, envelope_of, job_options,
}
use queue_worker_kit.Queue.Enqueue.Laws.{DelayFits, IsPrepared, prepare_iff}

data DefinitionCase (zod : Zod) (name : Text) (d : JobDefinition) : Type 0 where
  an_email : name ≡ email_name → send_email_job zod ≡ d → DefinitionCase zod name d
  a_report : name ≡ report_name → generate_report_job zod ≡ d → DefinitionCase zod name d
  a_cleanup : name ≡ cleanup_name → cleanup_job zod ≡ d → DefinitionCase zod name d

definition_case :
    (zod : Zod) (name : Text) (d : JobDefinition)
    → get_job_definition zod name ≡ some d
    → DefinitionCase zod name d
definition_case zod name d known = elim (name_case name) [
  | is_email e ↦ an_email e (some_unique (definition_by_name zod).0 (rw e at known))
  | is_report e ↦ a_report e (some_unique (definition_by_name zod).1 (rw e at known))
  | is_cleanup e ↦ a_cleanup e (some_unique (definition_by_name zod).2 (rw e at known))
  | is_other e r c ↦ cc (definition_of_other zod name e r c)
]

abbrev AcceptsAgain : Json → Json → JobDefinition → Type 0
AcceptsAgain j k d = d.schema j ≡ success k → d.schema k ≡ success k

schema_again :
    (zod : Zod) (laws : ZodLaws zod) (name : Text) (d : JobDefinition) (j k : Json)
    → get_job_definition zod name ≡ some d
    → AcceptsAgain j k d
unfolding send_email_job generate_report_job cleanup_job
schema_again zod laws name d j k known = elim (definition_case zod name d known) [
  | an_email _ same ↦ subst (AcceptsAgain j k) same (laws.send_email_again j k)
  | a_report _ same ↦ subst (AcceptsAgain j k) same (laws.generate_report_again j k)
  | a_cleanup _ same ↦ subst (AcceptsAgain j k) same (laws.cleanup_again j k)
]

Parsed-cases :
    {A : Type 0} (r : Parsed A)
    → ((a : A) × (r ≡ success a)) ⊎ ((issues : List Issue) × (r ≡ failure issues))
Parsed-cases (success a) = inl (a, refl)
Parsed-cases (failure issues) = inr (issues, refl)

unparsed :
    {zod : Zod} (laws : ZodLaws zod) (queues : QueueRegistry) (caller : Caller) (name : Text)
    (payload : Json) (options : EnqueueOptions) (p : Prepared)
    → IsPrepared zod queues caller name payload options p
    → (c : Text) → options.correlation_id ≡ some c
    → (length c ≡ 0) ⊎ (200 < length c)
    → (issues : List Issue) × (zod.parse_envelope (envelope_json p.envelope) ≡ failure issues)
unfolding envelope_of
unparsed {zod} laws queues caller name payload options p accepted c given bad =
    elim (Parsed-cases (zod.parse_envelope (envelope_json p.envelope))) [
      | inr e ↦ e
      | inl (f, e) ↦
          let valid = (laws.envelope_sound _ f e).correlation_id in
          let meta = laws.envelope_of_json p.envelope f e in
          let carried : f.meta.correlation_id ≡ c = ground (arith, meta, accepted.wrapped, given) in
          absurd (omega (arith, rw carried at valid))
    ]

module _ {Work : Type 0} (zod : Zod) (processors : Processors Work) where
  abbrev pub IsEntry : Text → (ProcessorContext → Work) → JobDefinition → Type 0
  IsEntry name process d =
      registry_get (create_job_registry zod processors) name ≡ some (register zod d process)

  pub entries :
      IsEntry email_name processors.email (send_email_job zod)
      × IsEntry report_name processors.report (generate_report_job zod)
      × IsEntry cleanup_name processors.cleanup (cleanup_job zod)
  unfolding registry_get text_eq
  entries = (rw by_name_eq refl, rw by_name_eq refl, rw by_name_eq refl)

  registered :
      (name : Text) (d : JobDefinition)
      → get_job_definition zod name ≡ some d
      → (process : ProcessorContext → Work) × IsEntry name process d
  registered name d known = elim (definition_case zod name d known) [
    | an_email e same ↦
        (processors.email, subst (IsEntry name processors.email) same (rw e entries.0))
    | a_report e same ↦
        (processors.report, subst (IsEntry name processors.report) same (rw e entries.1))
    | a_cleanup e same ↦
        (processors.cleanup, subst (IsEntry name processors.cleanup) same (rw e entries.2))
  ]

  refused :
      (d : JobDefinition) {stored : Json} (process : ProcessorContext → Work)
      (attempt : JobMeta → ℕ)
      → (issues : List Issue) × (zod.parse_envelope stored ≡ failure issues)
      → (v : Value) × ((register zod d process).invoke stored attempt ≡ throw v)
  unfolding register parsed_or_throw
  refused d process attempt (issues, e) = (
    kit (
        payload_validation (codes "Invalid job envelope for " ++ quoted d.name)
          (issues_of issues [])),
    rw e refl,
  )

  module _ (laws : ZodLaws zod) (queues : QueueRegistry) (caller : Caller) (name : Text)
      (payload : Json) (options : EnqueueOptions) (p : Prepared)
      (accepted : IsPrepared zod queues caller name payload options p) where
    -- A job that the producer accepts, stored with valid metadata, passes the worker's checks: the
    -- registry has a processor for its name, and the processor is called with the payload, the
    -- correlation id and the attempt, and nothing is refused on the way.
    pub invoke-enqueued :
        IsValidMeta zod p.envelope.meta
        → (process : ProcessorContext → Work) × (registry_get
              (create_job_registry zod processors)
              name
            ≡ some (register zod p.definition process))
          × ((attempt : JobMeta → ℕ)
              → (register zod p.definition process).invoke (envelope_json p.envelope) attempt
                ≡ normal (record {
                  meta = p.envelope.meta;
                  work = process (record {
                    payload = p.envelope.payload;
                    correlation_id = p.envelope.meta.correlation_id;
                    attempt = attempt p.envelope.meta;
                  });
                }))
    unfolding register parsed_or_throw
    invoke-enqueued valid =
        let (process, found) = registered name p.definition accepted.known in
        (
          process,
          found,
          λ attempt. rw (laws.envelope_accepts p.envelope valid) (
              rw
                (schema_again zod laws name p.definition payload p.envelope.payload accepted.known
                  accepted.accepted)
                refl),
        )

  -- The producer does not check the correlation id of its caller. Where the job is known, its
  -- payload is valid, its delay fits and its queue is registered, it accepts the job even with an
  -- empty id, or one of more than 200 code units. The registry has a processor for the job, and
  -- every attempt to run what was stored is refused by it with an error that is not retryable.
  pub enqueue-unchecked_correlation_id :
      (laws : ZodLaws zod) (queues : QueueRegistry) (caller : Caller) (name : Text)
      (payload parsed : Json) (options : EnqueueOptions) (d : JobDefinition) (q : Queue)
      (host : Host) (c : Text)
      → get_job_definition zod name ≡ some d
      → d.schema payload ≡ success parsed
      → DelayFits options.delay
      → get queues d.queue ≡ some q
      → options.correlation_id ≡ some c
      → (length c ≡ 0) ⊎ (200 < length c)
      → (p : Prepared) × (prepare zod queues caller name payload options ≡ normal p)
        × ((job : RegisteredJob Work) × (registry_get (create_job_registry zod processors) name
              ≡ some job)
            × ((attempt : JobMeta → ℕ)
                → (v : Value) × (job.invoke (envelope_json p.envelope) attempt ≡ throw v)
                  × (classify_error host v ≡ normal non_retryable_class)))
  enqueue-unchecked_correlation_id laws queues caller name payload parsed options d q host c known
        valid fits found given bad =
      let p : Prepared = record {
        definition = d;
        queue = q;
        envelope = envelope_of caller options parsed;
        options = job_options d.default_job_options options;
      } in
      let accepted : IsPrepared zod queues caller name payload options p = record {
        known = known;
        accepted = unfold envelope_of in valid;
        fits = fits;
        registered = found;
        wrapped = unfold envelope_of in refl;
        merged = refl;
      } in
      let (process, entry) = registered name d known in
      (
        p,
        (prepare_iff zod queues caller name payload options p).1 accepted,
        (
          register zod d process,
          entry,
          λ attempt.
              let (v, h) =
                refused d process attempt
                  (unparsed laws queues caller name payload options p accepted c given bad) in
              (v, h, invoke-throws host zod d process (envelope_json p.envelope) attempt v h),
        ),
      )
