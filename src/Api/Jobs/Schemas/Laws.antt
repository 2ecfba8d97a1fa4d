-- ===== src/Api/Jobs/Schemas/Laws.antt =====
-- What a body that has passed its route's schema is worth to `enqueue`.
use queue_worker_kit.Prelude.{
  ◌≡◌, refl, ap, ◌∙◌, subst, arith, Text, text_eq, all, ◌++◌, true, false, some,
}
use queue_worker_kit.Json.{Json, obj, Fields}
use queue_worker_kit.Jobs.Types.{Zod, success}
use queue_worker_kit.Jobs.Schemas.{
  Shape, ObjectSchema, Formats, ObjectParser, ObjectParserLaws, has_key, fits, all_fit, picked,
  with_payload_schemas, send_email_payload_schema, generate_report_payload_schema,
  cleanup_payload_schema,
}
use queue_worker_kit.Queue.Enqueue.Laws.{DelayFits, prepare_iff}
use queue_worker_kit.Api.Jobs.{is_option_key, payload_of, split_enqueue_options}
use queue_worker_kit.Api.Jobs.EndToEnd.{OptionsFit}
use queue_worker_kit.Api.Jobs.Schemas.{
  JobRoute, email_route, report_route, cleanup_route, body_schema, job_of, enqueue_options_schema,
}
use queue_worker_kit.Api.Jobs.Schemas.Fields.{all_fit-payload, all-append, stays}
use queue_worker_kit.Jobs.Types.{JobDefinition}
use queue_worker_kit.Jobs.Definitions.{send_email_job, generate_report_job, cleanup_job}
use queue_worker_kit.Jobs.Registry.{get_job_definition}
use queue_worker_kit.Queue.Registry.{Queue, QueueRegistry, get}
use queue_worker_kit.Queue.Enqueue.Prepare.{
  EnqueueOptions, Caller, Prepared, prepare, envelope_of, job_options,
}
use queue_worker_kit.Values.{normal}
use queue_worker_kit.Jobs.Schemas.{as_payload}
use queue_worker_kit.Dictionary.{lookup}
use queue_worker_kit.Api.Jobs.Schemas.Options.{options-fit}

abbrev payload_schema : JobRoute → ObjectSchema
payload_schema email_route = send_email_payload_schema
payload_schema report_route = generate_report_payload_schema
payload_schema cleanup_route = cleanup_payload_schema

-- The options' keys come after the payload's, which they do not touch.
body_schema-shape :
    (formats : Formats) (z : ObjectParser)
    → ObjectParserLaws formats z
    → (route : JobRoute)
    → (body_schema z route).shape ≡ (payload_schema route).shape ++ enqueue_options_schema.shape
unfolding body_schema text_eq
body_schema-shape formats z laws email_route = laws.extend_adds _ _ refl
body_schema-shape formats z laws report_route = laws.extend_adds _ _ refl
body_schema-shape formats z laws cleanup_route = laws.extend_adds _ _ refl

abbrev pub definition_of : Zod → JobRoute → JobDefinition
definition_of zod email_route = send_email_job zod
definition_of zod report_route = generate_report_job zod
definition_of zod cleanup_route = cleanup_job zod

definition_of-known :
    (zod : Zod) (route : JobRoute)
    → get_job_definition zod (job_of route) ≡ some (definition_of zod route)
unfolding get_job_definition job_of send_email_job generate_report_job cleanup_job lookup text_eq
definition_of-known zod email_route = refl
definition_of-known zod report_route = refl
definition_of-known zod cleanup_route = refl

definition_of-schema :
    (z : ObjectParser) (zod : Zod) (route : JobRoute) (j : Json)
    → (definition_of (with_payload_schemas z zod) route).schema j
      ≡ as_payload (z.parse (payload_schema route) j)
unfolding with_payload_schemas send_email_job generate_report_job cleanup_job
definition_of-schema z zod email_route j = refl
definition_of-schema z zod report_route j = refl
definition_of-schema z zod cleanup_route j = refl

prepared :
    (zod : Zod) (queues : QueueRegistry) (caller : Caller) (name : Text) (payload accepted : Json)
    (options : EnqueueOptions) (d : JobDefinition) (q : Queue)
    → get_job_definition zod name ≡ some d
    → d.schema payload ≡ success accepted
    → DelayFits options.delay
    → get queues d.queue ≡ some q
    → (p : Prepared) × (prepare zod queues caller name payload options ≡ normal p)
unfolding envelope_of
prepared zod queues caller name payload accepted options d q known valid fits registered =
    let p : Prepared = record {
      definition = d;
      queue = q;
      envelope = envelope_of caller options accepted;
      options = job_options d.default_job_options options;
    } in
    (
      p,
      (prepare_iff zod queues caller name payload options p).1 (record {
        known = known;
        accepted = valid;
        fits = fits;
        registered = registered;
        wrapped = refl;
        merged = refl;
      }),
    )

module _ (formats : Formats) (z : ObjectParser) (laws : ObjectParserLaws formats z) where
  stays-payload :
      (route : JobRoute)
      → all
          (stays ((payload_schema route).shape ++ enqueue_options_schema.shape))
          (payload_schema route).shape
        ≡ true
  unfolding text_eq is_option_key
  stays-payload email_route = refl
  stays-payload report_route = refl
  stays-payload cleanup_route = refl

  has_options :
      (route : JobRoute)
      → all
          (λ k. has_key k.name ((payload_schema route).shape ++ enqueue_options_schema.shape))
          enqueue_options_schema.shape
        ≡ true
  unfolding text_eq
  has_options email_route = refl
  has_options report_route = refl
  has_options cleanup_route = refl

  payload_schema-object : (route : JobRoute) → (payload_schema route).is_strict ≡ false
  payload_schema-object email_route = refl
  payload_schema-object report_route = refl
  payload_schema-object cleanup_route = refl

  body_accepted :
      (route : JobRoute) (j : Json) (body : Fields)
      → z.parse (body_schema z route) j ≡ success body
      → ((out : Fields) × (z.parse (payload_schema route) (obj (payload_of body)) ≡ success out))
        × OptionsFit (split_enqueue_options body).0
        × DelayFits (split_enqueue_options body).0.delay
  body_accepted route j body h =
      let (fs, _, fitted, _, out) = (laws.parse_iff (body_schema z route) j body).0 h in
      let full : Shape = (payload_schema route).shape ++ enqueue_options_schema.shape in
      let same : body ≡ picked full fs =
        out ∙ ap (λ (s : Shape). picked s fs) (body_schema-shape formats z laws route) in
      let (payload, options) =
        all-append formats (payload_schema route).shape enqueue_options_schema.shape fs (
          subst (λ (s : Shape). all_fit formats s fs ≡ true)
            (body_schema-shape formats z laws route) fitted) in
      let fitting =
        all_fit-payload formats full (payload_schema route).shape fs (stays-payload route)
          payload in
      let kept : Fields = payload_of (picked full fs) in
      let accepted : z.parse (payload_schema route) (obj kept)
          ≡ success (picked (payload_schema route).shape kept) =
        (laws.parse_iff (payload_schema route) (obj kept) _).1
          (kept, refl, fitting, (λ is. ground (arith, is, payload_schema-object route)), refl) in
      let (fit, delay) = options-fit formats full fs options (has_options route) in
      rw same ((_, accepted), fit, delay)

  -- A body that has passed its route's schema, which refuses unknown keys, passes all that `enqueue`
  -- checks, as long as the job's queue is registered: the job is known, the payload that is left
  -- after the options is accepted again by the job's own schema, and the delay is in its range. Its
  -- correlation id and idempotency key have the lengths that the worker will ask for.
  pub accepted-prepared :
      (zod : Zod) (queues : QueueRegistry) (caller : Caller) (route : JobRoute) (j : Json)
      (body : Fields) (q : Queue)
      → z.parse (body_schema z route) j ≡ success body
      → get queues (definition_of (with_payload_schemas z zod) route).queue ≡ some q
      → ((p : Prepared) × (prepare
              (with_payload_schemas z zod)
              queues
              caller
              (job_of route)
              (obj (split_enqueue_options body).1)
              (split_enqueue_options body).0
            ≡ normal p))
        × OptionsFit (split_enqueue_options body).0
  unfolding split_enqueue_options
  accepted-prepared zod queues caller route j body q h registered =
      let ((out, accepted), fit, delay) = body_accepted route j body h in
      let full : Zod = with_payload_schemas z zod in
      (
        prepared full queues caller (job_of route) (obj (payload_of body)) (obj out) _
            (definition_of full route) q (definition_of-known full route)
            (rw (definition_of-schema z zod route (obj (payload_of body)), accepted) refl) delay
            registered,
        fit,
      )
