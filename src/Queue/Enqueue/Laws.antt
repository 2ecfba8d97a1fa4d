-- ===== src/Queue/Enqueue/Laws.antt =====
-- What is refused before Redis, and what is written to it.
use queue_worker_kit.Prelude.{◌≤◌, Text, [], Option, none, some, ◌≡◌, ◌↔◌, refl, subst, arith}
use queue_worker_kit.Config.Defaults.{max_enqueue_delay_ms}
use queue_worker_kit.Values.{Number, nat, negative, other, normal, >>=-eq-normal, normal-injective}
use queue_worker_kit.Json.{Json}
use queue_worker_kit.Jobs.Types.{Zod, Parsed, success, failure, JobDefinition}
use queue_worker_kit.Jobs.Registry.{get_job_definition, parsed_or_throw}
use queue_worker_kit.Queue.Registry.{QueueRegistry, get, get_or_throw}
use queue_worker_kit.Queue.Registry.Laws.{get_or_throw-ok, get_or_throw-registered}
use queue_worker_kit.Queue.Enqueue.Prepare.{
  EnqueueOptions, Caller, Prepared, prepare, check_delay, job_options, envelope_of,
  defined_or_throw,
}

-- An absent delay, or an integer from 0 to seven days.
abbrev pub DelayFits : Option Number → Type 0
DelayFits none = Unit
DelayFits (some (nat n)) = n ≤ max_enqueue_delay_ms
DelayFits (some (negative n)) = ⊥
DelayFits (some (other s)) = ⊥

check_delay-ok : (delay : Option Number) → check_delay delay ≡ normal tt → DelayFits delay
unfolding check_delay
check_delay-ok none h = tt
check_delay-ok (some (nat n)) h = ground arith
check_delay-ok (some (negative n)) h = cc
check_delay-ok (some (other s)) h = cc

check_delay-fits : (delay : Option Number) → DelayFits delay → check_delay delay ≡ normal tt
unfolding check_delay
check_delay-fits none h = refl
check_delay-fits (some (nat n)) h = ground arith
check_delay-fits (some (negative n)) h = absurd h
check_delay-fits (some (other s)) h = absurd h

-- What the checks let through, described without them.
pub record IsPrepared (zod : Zod) (queues : QueueRegistry) (caller : Caller) (name : Text)
    (payload : Json) (options : EnqueueOptions) (p : Prepared) : Type 0 where
  pub known : get_job_definition zod name ≡ some p.definition
  pub accepted : p.definition.schema payload ≡ success p.envelope.payload
  pub fits : DelayFits options.delay
  pub registered : get queues p.definition.queue ≡ some p.queue
  pub wrapped : p.envelope ≡ envelope_of caller options p.envelope.payload
  pub merged : p.options ≡ job_options p.definition.default_job_options options

pub defined_or_throw-ok :
    (name : Text) (o : Option JobDefinition) {d : JobDefinition}
    → defined_or_throw name o ≡ normal d
    → o ≡ some d
defined_or_throw-ok name none h = cc
defined_or_throw-ok name (some d) h = cc

parsed_or_throw-ok :
    {A : Type 0} (message prefix : Text) (r : Parsed A) {a : A}
    → parsed_or_throw message prefix r ≡ normal a
    → r ≡ success a
unfolding parsed_or_throw
parsed_or_throw-ok message prefix (success a) h = cc
parsed_or_throw-ok message prefix (failure issues) h = cc

module _ (zod : Zod) (queues : QueueRegistry) (caller : Caller) (name : Text) (payload : Json)
    (options : EnqueueOptions) where
  prepare_sound :
      (p : Prepared)
      → prepare zod queues caller name payload options ≡ normal p
      → IsPrepared zod queues caller name payload options p
  unfolding prepare
  prepare_sound p h =
      let (d, hd, h₁) = >>=-eq-normal (defined_or_throw name (get_job_definition zod name)) _ h in
      let (parsed, hp, h₂) = >>=-eq-normal (parsed_or_throw _ [] (d.schema payload)) _ h₁ in
      let (u, hu, h₃) = >>=-eq-normal (check_delay options.delay) _ h₂ in
      let (q, hq, h₄) = >>=-eq-normal (get_or_throw queues d.queue) _ h₃ in
      let made : Prepared = record {
        definition = d;
        queue = q;
        envelope = envelope_of caller options parsed;
        options = job_options d.default_job_options options;
      } in
      let same : made ≡ p = normal-injective h₄ in
      subst (λ x. IsPrepared zod queues caller name payload options x) same
        (record {
          known = defined_or_throw-ok name (get_job_definition zod name) hd;
          accepted = unfold envelope_of in parsed_or_throw-ok _ [] (d.schema payload) hp;
          fits = check_delay-ok options.delay hu;
          registered = get_or_throw-ok queues d.queue hq;
          wrapped = unfold envelope_of in refl;
          merged = refl;
        })

  prepare_complete :
      (p : Prepared)
      → IsPrepared zod queues caller name payload options p
      → prepare zod queues caller name payload options ≡ normal p
  unfolding prepare parsed_or_throw
  prepare_complete p i = rw (i.known) (
      rw
        (
          i.accepted,
          check_delay-fits options.delay i.fits,
          get_or_throw-registered queues _ _ i.registered,
        )
        (ground (arith, i.wrapped, i.merged)))

  -- The checks by themselves, with the envelope and the options as the code builds them.
  pub prepare_iff :
      (p : Prepared)
      → (prepare zod queues caller name payload options ≡ normal p)
        ↔ IsPrepared zod queues caller name payload options p
  prepare_iff p = (prepare_sound p, prepare_complete p)
