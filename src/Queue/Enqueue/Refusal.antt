-- ===== src/Queue/Enqueue/Refusal.antt =====
-- What src/queue/enqueue.ts throws before it calls Redis.
use queue_worker_kit.Prelude.{
  Text, [], Bool, true, false, Bool-cases, Option, none, some, ◌≡◌, refl, sym, arith, inl, inr,
}
use queue_worker_kit.Config.Defaults.{all_queue_names, max_enqueue_delay_ms}
use queue_worker_kit.Errors.{classify_error, non_retryable_class}
use queue_worker_kit.Errors.Laws.{classify_error-kit}
use queue_worker_kit.Values.{
  Number, undefined, Value, kit, KitError, non_retryable, payload_validation, unknown_job, normal,
  throw, >>=-eq-throw, throw-injective, Host, kit_non_retryable,
}
use queue_worker_kit.Json.{Json}
use queue_worker_kit.Jobs.Types.{Zod, Parsed, success, failure, JobDefinition}
use queue_worker_kit.Jobs.Registry.{get_job_definition, queue_for_job, parsed_or_throw, issues_of}
use queue_worker_kit.Jobs.Registry.Laws.{queue_for_job-worker}
use queue_worker_kit.Queue.Registry.{Queue, get, create_queue_registry}
use queue_worker_kit.Queue.Registry.Laws.{get_or_throw-registered, get-create_queue_registry}
use queue_worker_kit.Queue.Enqueue.Prepare.{
  EnqueueOptions, Caller, prepare, check_delay, is_integer_upto, defined_or_throw,
}
use queue_worker_kit.Queue.Enqueue.Laws.{defined_or_throw-ok}
use queue_worker_kit.Queue.Enqueue.{enqueue}

-- The errors for what a request holds.
abbrev pub is_refusal : KitError → Bool
is_refusal (non_retryable m cause) = true
is_refusal (payload_validation m issues) = true
is_refusal (unknown_job name) = true
is_refusal e = false

abbrev pub IsRefusal : Value → Type 0
IsRefusal v = (e : KitError) × (v ≡ kit e) × (is_refusal e ≡ true)

refusal_non_retryable : (e : KitError) → is_refusal e ≡ true → kit_non_retryable e ≡ true
unfolding kit_non_retryable
refusal_non_retryable (KitError.plain m) h = cc
refusal_non_retryable (non_retryable m cause) h = refl
refusal_non_retryable (payload_validation m issues) h = refl
refusal_non_retryable (unknown_job name) h = refl
refusal_non_retryable (KitError.transient m cause) h = cc
refusal_non_retryable (KitError.job_timeout ms) h = cc
refusal_non_retryable (KitError.job_cancelled m) h = cc
refusal_non_retryable (KitError.http s c m d) h = cc
refusal_non_retryable (KitError.config issues) h = cc

refusal_classified :
    (host : Host) (v : Value) → IsRefusal v → classify_error host v ≡ normal non_retryable_class
refusal_classified host v (e, same, refusal) =
    rw (same, classify_error-kit host e, refusal_non_retryable e refusal) refl

parsed_or_throw-IsRefusal :
    {A : Type 0} (message prefix : Text) (r : Parsed A) {v : Value}
    → parsed_or_throw message prefix r ≡ throw v
    → IsRefusal v
unfolding parsed_or_throw
parsed_or_throw-IsRefusal message prefix (success a) h = cc
parsed_or_throw-IsRefusal message prefix (failure issues) h =
    (payload_validation message (issues_of issues prefix), cc, refl)

check_delay-IsRefusal :
    (delay : Option Number) {v : Value} → check_delay delay ≡ throw v → IsRefusal v
unfolding check_delay
check_delay-IsRefusal none h = cc
check_delay-IsRefusal (some delay) {v} h =
    elim (Bool-cases (is_integer_upto max_enqueue_delay_ms delay)) [
      | inl fits ↦ cc
      | inr bad ↦ (non_retryable _ undefined, sym (throw-injective (rw bad at h)), refl)
    ]

defined_or_throw-IsRefusal :
    (name : Text) (o : Option JobDefinition) {v : Value}
    → defined_or_throw name o ≡ throw v
    → IsRefusal v
defined_or_throw-IsRefusal name none h = (unknown_job name, cc, refl)
defined_or_throw-IsRefusal name (some d) h = cc

job_queue_registered :
    (zod : Zod) (create : Text → Queue) (name : Text) (d : JobDefinition)
    → get_job_definition zod name ≡ some d
    → get (create_queue_registry create all_queue_names) d.queue ≡ some (create d.queue)
unfolding queue_for_job
job_queue_registered zod create name d known = ground (
  arith,
  queue_for_job-worker zod name d.queue,
  get-create_queue_registry create all_queue_names d.queue,
)

-- In a process that registers every queue, the checks before Redis throw only for what a request
-- holds.
pub prepare-IsRefusal :
    (zod : Zod) (create : Text → Queue) (caller : Caller) (name : Text) (payload : Json)
    (options : EnqueueOptions) {v : Value}
    → prepare zod (create_queue_registry create all_queue_names) caller name payload options
      ≡ throw v
    → IsRefusal v
unfolding prepare
prepare-IsRefusal zod create caller name payload options h =
    let queues = create_queue_registry create all_queue_names in
    elim (>>=-eq-throw (defined_or_throw name (get_job_definition zod name)) _ h) [
      | inl bad ↦ defined_or_throw-IsRefusal name (get_job_definition zod name) bad
      | inr (d, known, h₁) ↦ elim (>>=-eq-throw (parsed_or_throw _ [] (d.schema payload)) _ h₁) [
        | inl bad ↦ parsed_or_throw-IsRefusal _ [] (d.schema payload) bad
        | inr (parsed, _, h₂) ↦ elim (>>=-eq-throw (check_delay options.delay) _ h₂) [
          | inl bad ↦ check_delay-IsRefusal options.delay bad
          | inr (_, _, h₃) ↦
              let found = get_or_throw-registered queues d.queue (create d.queue) (
                job_queue_registered zod create name d
                  (defined_or_throw-ok name (get_job_definition zod name) known)) in
              cc (rw found at h₃)
        ]
      ]
    ]

-- In a process that registers every queue, a request that is refused before Redis throws an
-- error that is classified as not retryable, and has no effect: no call of Redis, no count.
enqueue_refused :
    (host : Host) (zod : Zod) (create : Text → Queue) (caller : Caller) (name : Text)
    (payload : Json) (options : EnqueueOptions) (v : Value)
    → prepare zod (create_queue_registry create all_queue_names) caller name payload options
      ≡ throw v
    → (enqueue zod (create_queue_registry create all_queue_names) caller name payload options
        ≡ (throw v, []))
      × (classify_error host v ≡ normal non_retryable_class)
unfolding enqueue
enqueue_refused host zod create caller name payload options v h = (
  rw h refl,
  refusal_classified host v (prepare-IsRefusal zod create caller name payload options h),
)
