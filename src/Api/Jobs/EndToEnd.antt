-- ===== src/Api/Jobs/EndToEnd.antt =====
-- A job that the API accepts (src/api/routes/jobs.routes.ts) reaches its processor.
use queue_worker_kit.Prelude.{ℕ, Text, ◌≡◌, refl, sym, subst, true, Option, none, some}
use queue_worker_kit.Values.{Completion, normal, throw}
use queue_worker_kit.Json.{Json, obj, Fields}
use queue_worker_kit.Jobs.Types.{
  Zod, ZodLaws, IsValidMeta, HasLength, KeyFits, JobMeta, JobEnvelope, envelope_json,
}
use queue_worker_kit.Jobs.Registry.{
  Invoked, Processors, RegisteredJob, register, create_job_registry, registry_get,
}
use queue_worker_kit.Observability.Context.{resolve_correlation_id}
use queue_worker_kit.Observability.Effects.{Exec, lift, ◌>>=◌}
use queue_worker_kit.Queue.Registry.{QueueRegistry}
use queue_worker_kit.Queue.Enqueue.{enqueue, submit}
use queue_worker_kit.Queue.Enqueue.Prepare.{Caller, Prepared, EnqueueOptions, prepare, envelope_of}
use queue_worker_kit.Queue.Enqueue.Laws.{IsPrepared, prepare_iff}
use queue_worker_kit.Queue.Enqueue.RoundTrip.{invoke-enqueued}
use queue_worker_kit.Api.Jobs.{split_enqueue_options}
use queue_worker_kit.Api.Jobs.Create.{Accepted, post_job}

-- The ids that the process supplies fit, and its clock prints a date-time.
pub record IsSound (zod : Zod) (caller : Caller) : Type 0 where
  pub ambient : KeyFits caller.ambient
  pub fresh : HasLength 1 200 caller.fresh
  pub now : zod.is_datetime caller.now ≡ true

-- What `enqueueOptionsSchema` asks of the two texts.
pub record OptionsFit (options : EnqueueOptions) : Type 0 where
  pub correlation_id : KeyFits options.correlation_id
  pub idempotency_key : KeyFits options.idempotency_key

resolve-HasLength :
    (explicit ambient : Option Text) (fresh : Text)
    → KeyFits explicit
    → KeyFits ambient
    → HasLength 1 200 fresh
    → HasLength 1 200 (resolve_correlation_id explicit ambient fresh)
unfolding resolve_correlation_id
resolve-HasLength (some id) ambient fresh e a f = e
resolve-HasLength none (some id) fresh e a f = a
resolve-HasLength none none fresh e a f = f

envelope_of-IsValidMeta :
    (zod : Zod) (caller : Caller) (options : EnqueueOptions) (payload : Json)
    → IsSound zod caller
    → OptionsFit options
    → IsValidMeta zod (envelope_of caller options payload).meta
unfolding envelope_of
envelope_of-IsValidMeta zod caller options payload sound fits = record {
  correlation_id =
      resolve-HasLength options.correlation_id caller.ambient caller.fresh fits.correlation_id
        sound.ambient sound.fresh;
  enqueued_at = sound.now;
  idempotency_key = fits.idempotency_key;
}

lift-normal :
    {A B : Type 0} (c : Completion A) (f : A → Exec B) (b : B)
    → (lift c >>= f).0 ≡ normal b
    → (a : A) × (c ≡ normal a)
lift-normal (normal a) f b h = (a, refl)
lift-normal (throw v) f b h = cc

after-normal :
    {A B : Type 0} (m : Exec A) (f : A → Exec B) (b : B)
    → (m >>= f).0 ≡ normal b
    → (a : A) × (m.0 ≡ normal a)
after-normal (normal a, es) f b h = (a, refl)
after-normal (throw v, es) f b h = cc

module _ {Work : Type 0} (zod : Zod) (laws : ZodLaws zod) (processors : Processors Work)
    (queues : QueueRegistry) (caller : Caller) (sound : IsSound zod caller) where
  -- If the API accepts a job, whose options have passed their schema, then a worker has an entry
  -- for its name, and whatever the attempt, that entry's invocation of the stored envelope passes
  -- both validations and calls the processor under the envelope's metadata.
  pub post_job-runs :
      (name : Text) (body : Fields) (accepted : Accepted)
      → OptionsFit (split_enqueue_options body).0
      → (post_job zod queues caller name body).0 ≡ normal accepted
      → (p : Prepared) × IsPrepared zod queues caller name
          (obj (split_enqueue_options body).1)
          (split_enqueue_options body).0
          p
        × ((entry : RegisteredJob Work) × (registry_get (create_job_registry zod processors) name
              ≡ some entry)
            × ((attempt : JobMeta → ℕ)
                → (i : Invoked Work) × (entry.invoke (envelope_json p.envelope) attempt ≡ normal i)
                  × (i.meta ≡ p.envelope.meta)))
  unfolding post_job enqueue
  post_job-runs name body accepted fits h =
      let options : EnqueueOptions = (split_enqueue_options body).0 in
      let payload : Json = obj (split_enqueue_options body).1 in
      let (r, enqueued) =
        after-normal (enqueue zod queues caller name payload options) _ accepted h in
      let (p, prepared) =
        lift-normal (prepare zod queues caller name payload options) (submit options) r enqueued in
      let ready : IsPrepared zod queues caller name payload options p =
        (prepare_iff zod queues caller name payload options p).0 prepared in
      let valid : IsValidMeta zod p.envelope.meta =
        subst (λ (e : JobEnvelope). IsValidMeta zod e.meta) (sym ready.wrapped)
          (envelope_of-IsValidMeta zod caller options p.envelope.payload sound fits) in
      let (process, entry, runs) =
        invoke-enqueued zod processors laws queues caller name payload options p ready valid in
      (p, ready, (register zod p.definition process, entry, λ attempt. (_, runs attempt, refl)))
