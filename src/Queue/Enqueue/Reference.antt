-- ===== src/Queue/Enqueue/Reference.antt =====
-- What a request is turned into before Redis, described field by field (src/queue/enqueue.ts).
use queue_worker_kit.Prelude.{ℕ, Text, Option, none, some, ◌≡◌, ◌↔◌, refl, ap, sym}
use queue_worker_kit.Values.{Number, normal}
use queue_worker_kit.Json.{Json}
use queue_worker_kit.Jobs.Types.{
  Zod, success, JobDefaultOptions, JobsOptions, Deduplication, JobEnvelope,
}
use queue_worker_kit.Jobs.Registry.{get_job_definition}
use queue_worker_kit.Observability.Context.{resolve_correlation_id}
use queue_worker_kit.Queue.Registry.{QueueRegistry, get}
use queue_worker_kit.Queue.Enqueue.Prepare.{
  EnqueueOptions, Caller, Prepared, prepare, override, deduplication_of, envelope_of, job_options,
}
use queue_worker_kit.Queue.Enqueue.Laws.{DelayFits, IsPrepared, prepare_iff}

-- What the call asks for goes before what the definition pins.
abbrev pub Prevails : {A : Type 0} → Option A → Option A → Option A → Type 0
Prevails (some a) pinned result = result ≡ some a
Prevails none pinned result = result ≡ pinned

-- The call's own id, or that of the request that it serves, or a fresh one.
abbrev pub Correlates : Option Text → Option Text → Text → Text → Type 0
Correlates (some id) ambient fresh result = result ≡ id
Correlates none (some id) fresh result = result ≡ id
Correlates none none fresh result = result ≡ fresh

-- A key deduplicates for the time that is asked for, or for a day.
abbrev pub Deduplicates : Option Text → Option ℕ → Option Deduplication → Type 0
Deduplicates none ttl result = result ≡ none
Deduplicates (some key) (some ttl) result = result ≡ some (record { id = key; ttl = ttl })
Deduplicates (some key) none result = result ≡ some (record { id = key; ttl = 86_400_000 })

pub record IsDescribed (zod : Zod) (queues : QueueRegistry) (caller : Caller) (name : Text)
    (payload : Json) (options : EnqueueOptions) (p : Prepared) : Type 0 where
  pub known : get_job_definition zod name ≡ some p.definition
  pub accepted : p.definition.schema payload ≡ success p.envelope.payload
  pub fits : DelayFits options.delay
  pub registered : get queues p.definition.queue ≡ some p.queue
  pub correlation_id :
      Correlates options.correlation_id caller.ambient caller.fresh p.envelope.meta.correlation_id
  pub enqueued_at : p.envelope.meta.enqueued_at ≡ caller.now
  pub idempotency_key : p.envelope.meta.idempotency_key ≡ options.idempotency_key
  pub attempts :
      Prevails options.attempts p.definition.default_job_options.attempts
        p.options.defaults.attempts
  pub priority :
      Prevails options.priority p.definition.default_job_options.priority
        p.options.defaults.priority
  pub backoff : p.options.defaults.backoff ≡ p.definition.default_job_options.backoff
  pub remove_on_complete :
      p.options.defaults.remove_on_complete ≡ p.definition.default_job_options.remove_on_complete
  pub remove_on_fail :
      p.options.defaults.remove_on_fail ≡ p.definition.default_job_options.remove_on_fail
  pub delay : p.options.delay ≡ options.delay
  pub deduplication :
      Deduplicates options.idempotency_key options.idempotency_ttl_ms p.options.deduplication

Prevails-override :
    {A : Type 0} (o pinned r : Option A) → Prevails o pinned r ↔ (r ≡ override o pinned)
Prevails-override none pinned r = (λ h. h, λ h. h)
Prevails-override (some a) pinned r = (λ h. h, λ h. h)

Correlates-resolve :
    (explicit ambient : Option Text) (fresh r : Text)
    → Correlates explicit ambient fresh r ↔ (r ≡ resolve_correlation_id explicit ambient fresh)
unfolding resolve_correlation_id
Correlates-resolve (some id) ambient fresh r = (λ h. h, λ h. h)
Correlates-resolve none (some id) fresh r = (λ h. h, λ h. h)
Correlates-resolve none none fresh r = (λ h. h, λ h. h)

Deduplicates-deduplication_of :
    (key : Option Text) (ttl : Option ℕ) (r : Option Deduplication)
    → Deduplicates key ttl r ↔ (r ≡ deduplication_of key ttl)
Deduplicates-deduplication_of none ttl r = (λ h. h, λ h. h)
Deduplicates-deduplication_of (some key) none r = (λ h. h, λ h. h)
Deduplicates-deduplication_of (some key) (some ttl) r = (λ h. h, λ h. h)

envelope_by_fields :
    (e : JobEnvelope) {id now : Text} {key : Option Text}
    → e.meta.correlation_id ≡ id
    → e.meta.enqueued_at ≡ now
    → e.meta.idempotency_key ≡ key
    → e ≡ record {
      payload = e.payload;
      meta = record { correlation_id = id; enqueued_at = now; idempotency_key = key };
    }
envelope_by_fields e h k l = rw (sym h, sym k, sym l) refl

defaults_by_fields :
    (d pinned : JobDefaultOptions) {attempts priority : Option ℕ}
    → d.attempts ≡ attempts
    → d.priority ≡ priority
    → d.backoff ≡ pinned.backoff
    → d.remove_on_complete ≡ pinned.remove_on_complete
    → d.remove_on_fail ≡ pinned.remove_on_fail
    → d ≡ record pinned { attempts = attempts; priority = priority }
defaults_by_fields d pinned h k l m n = rw (sym h, sym k, sym l, sym m, sym n) refl

options_by_fields :
    (o : JobsOptions) {defaults : JobDefaultOptions} {delay : Option Number}
    {deduplication : Option Deduplication}
    → o.defaults ≡ defaults
    → o.delay ≡ delay
    → o.deduplication ≡ deduplication
    → o ≡ record { defaults = defaults; delay = delay; deduplication = deduplication }
options_by_fields o h k l = rw (sym h, sym k, sym l) refl

module _ (zod : Zod) (queues : QueueRegistry) (caller : Caller) (name : Text) (payload : Json)
    (options : EnqueueOptions) where
  abbrev Prepares : Prepared → Type 0
  Prepares = IsPrepared zod queues caller name payload options

  abbrev Describes : Prepared → Type 0
  Describes = IsDescribed zod queues caller name payload options

  Prepares-Describes : (p : Prepared) → Prepares p → Describes p
  unfolding envelope_of job_options
  Prepares-Describes p i =
      let meta = ap (λ (e : JobEnvelope). e.meta) i.wrapped in
      let defaults = ap (λ (o : JobsOptions). o.defaults) i.merged in
      record {
        known = i.known;
        accepted = i.accepted;
        fits = i.fits;
        registered = i.registered;
        correlation_id =
            (Correlates-resolve options.correlation_id caller.ambient caller.fresh _).1
              (ap (λ m. m.correlation_id) meta);
        enqueued_at = ap (λ m. m.enqueued_at) meta;
        idempotency_key = ap (λ m. m.idempotency_key) meta;
        attempts = (Prevails-override options.attempts _ _).1 (ap (λ d. d.attempts) defaults);
        priority = (Prevails-override options.priority _ _).1 (ap (λ d. d.priority) defaults);
        backoff = ap (λ d. d.backoff) defaults;
        remove_on_complete = ap (λ d. d.remove_on_complete) defaults;
        remove_on_fail = ap (λ d. d.remove_on_fail) defaults;
        delay = ap (λ (o : JobsOptions). o.delay) i.merged;
        deduplication =
            (Deduplicates-deduplication_of options.idempotency_key options.idempotency_ttl_ms _).1
              (ap (λ (o : JobsOptions). o.deduplication) i.merged);
      }

  Describes-Prepares : (p : Prepared) → Describes p → Prepares p
  unfolding envelope_of job_options
  Describes-Prepares p i =
      let id =
        (Correlates-resolve options.correlation_id caller.ambient caller.fresh _).0
          i.correlation_id in
      let attempts = (Prevails-override options.attempts _ _).0 i.attempts in
      let priority = (Prevails-override options.priority _ _).0 i.priority in
      let kept =
        (Deduplicates-deduplication_of options.idempotency_key options.idempotency_ttl_ms _).0
          i.deduplication in
      record {
        known = i.known;
        accepted = i.accepted;
        fits = i.fits;
        registered = i.registered;
        wrapped = envelope_by_fields p.envelope id i.enqueued_at i.idempotency_key;
        merged =
            options_by_fields p.options
              (defaults_by_fields p.options.defaults p.definition.default_job_options attempts
                priority i.backoff i.remove_on_complete i.remove_on_fail)
              i.delay kept;
      }

  -- Before Redis, a request is let through exactly if its job is known, its payload is valid, its
  -- delay, if it has one, is an integer from 0 to seven days, and its queue is registered. What is
  -- let through carries the parsed payload, the time, the idempotency key, and the call's
  -- correlation id, or else that of the request that it serves, or else a fresh one. The attempts
  -- and the priority are the call's where it gives them and the definition's otherwise, the rest
  -- of the definition's options is kept, the delay is the call's, and an idempotency key
  -- deduplicates for the time that the call gives, or for a day.
  pub prepare-IsDescribed :
      (p : Prepared)
      → (prepare zod queues caller name payload options ≡ normal p)
        ↔ IsDescribed zod queues caller name payload options p
  prepare-IsDescribed p =
      let (sound, complete) = prepare_iff zod queues caller name payload options p in
      (λ h. Prepares-Describes p (sound h), λ i. complete (Describes-Prepares p i))
