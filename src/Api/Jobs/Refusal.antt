-- ===== src/Api/Jobs/Refusal.antt =====
-- The answer to a job that is refused (src/api/routes/jobs.routes.ts with src/queue/enqueue.ts and
-- src/api/errors.ts).
use queue_worker_kit.Prelude.{Text, text_eq, codes, [], ◌∷◌, Bool, true, none, some, ◌≡◌, refl}
use queue_worker_kit.Config.Defaults.{all_queue_names}
use queue_worker_kit.Values.{
  Value, str, kit, KitError, non_retryable, payload_validation, unknown_job, kit_message,
  validation_error, unknown_job_code, normal, throw, Host, kit_object, object_of, kit_non_retryable,
}
use queue_worker_kit.Json.{obj, Fields}
use queue_worker_kit.Jobs.Types.{Zod}
use queue_worker_kit.Observability.Effects.{log, warn}
use queue_worker_kit.Queue.Registry.{Queue, create_queue_registry}
use queue_worker_kit.Queue.Enqueue.Prepare.{Caller, prepare}
use queue_worker_kit.Queue.Enqueue.Refusal.{is_refusal, prepare-IsRefusal}
use queue_worker_kit.Queue.Enqueue.{enqueue}
use queue_worker_kit.Api.Errors.{ErrorResponse, response, build_error_response}
use queue_worker_kit.Api.Errors.Validation.{handle_error}
use queue_worker_kit.Api.Jobs.{split_enqueue_options}
use queue_worker_kit.Api.Jobs.Create.{post_job}

-- The answer to each of these errors.
abbrev pub answer_to : KitError → ErrorResponse
answer_to (payload_validation m issues) =
    response 400 validation_error (str (codes "Invalid job payload")) (some issues)
answer_to (unknown_job name) =
    response 400 unknown_job_code (str (kit_message (unknown_job name))) none
answer_to e = response 400 validation_error (str (kit_message e)) none

handle_error-refusal :
    (host : Host) (exposed : Bool) (e : KitError)
    → is_refusal e ≡ true
    → handle_error host exposed (kit e)
      ≡ (normal (answer_to e), log warn (codes "request failed") ∷ [])
unfolding handle_error build_error_response object_of kit_object kit_non_retryable text_eq
handle_error-refusal host exposed (non_retryable m cause) h = refl
handle_error-refusal host exposed (payload_validation m issues) h = refl
handle_error-refusal host exposed (unknown_job name) h = refl
handle_error-refusal host exposed (KitError.plain m) h = cc
handle_error-refusal host exposed (KitError.transient m cause) h = cc
handle_error-refusal host exposed (KitError.job_timeout ms) h = cc
handle_error-refusal host exposed (KitError.job_cancelled m) h = cc
handle_error-refusal host exposed (KitError.http s c m d) h = cc
handle_error-refusal host exposed (KitError.config issues) h = cc

-- In a process that registers every queue, a POST whose job is refused before Redis has no effect.
-- Its error is answered with 400 and logged as a warning, whether or not internals may be shown: an
-- invalid payload with its issues, an unknown job with its name, any other refusal with its message.
pub post_job-refused :
    (host : Host) (exposed : Bool) (zod : Zod) (create : Text → Queue) (caller : Caller)
    (name : Text) (body : Fields) (v : Value)
    → let queues = create_queue_registry create all_queue_names in
      let (options, payload) = split_enqueue_options body in
      prepare zod queues caller name (obj payload) options ≡ throw v
      → (post_job zod (create_queue_registry create all_queue_names) caller name body
          ≡ (throw v, []))
        × ((e : KitError) × (v ≡ kit e)
            × (is_refusal e ≡ true)
            × (handle_error host exposed v
                ≡ (normal (answer_to e), log warn (codes "request failed") ∷ [])))
unfolding post_job enqueue
post_job-refused host exposed zod create caller name body v h =
    let (options, payload) = split_enqueue_options body in
    let (e, same, refusal) = prepare-IsRefusal zod create caller name (obj payload) options h in
    (rw h refl, (e, same, refusal, rw same (handle_error-refusal host exposed e refusal)))
