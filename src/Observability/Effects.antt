-- ===== src/Observability/Effects.antt =====
-- The counters and the histogram of src/observability/metrics.ts, the logger's records and the
-- calls of the queue, as a list of effects in the order in which they happen. A log record is its
-- level and message; `add_job` is a call of `Queue.add`. An action is a call with its effects: those before a throw have happened.
use queue_worker_kit.Prelude.{ℕ, Text, List, [], ◌∷◌, ◌++◌, Option}
use queue_worker_kit.Values.{Completion, normal, throw, Value}
use queue_worker_kit.Json.{Json}
use queue_worker_kit.Jobs.Types.{JobsOptions}

pub data Counter : Type 0 where
  jobs_enqueued jobs_started jobs_completed jobs_failed jobs_retrying : Counter
  jobs_dead_lettered jobs_stalled dead_letter_write_failures : Counter

-- `job_name` is absent on the counters that are labelled by queue alone.
pub record Labels : Type 0 where
  pub queue : Text
  pub job_name : Option Text

pub data Level : Type 0 where
  debug info warn error fatal : Level

pub data Effect : Type 0 where
  inc : Counter → Labels → Effect
  observe_duration : Labels → ℕ → Effect
  log : Level → Text → Effect
  add_job : Text → Text → Json → JobsOptions → Effect

-- An action: how it ends, and what it has done until then.
abbrev pub Traced {ℓ} : Type 0 → Type ℓ → Type ℓ
Traced E A = Completion A × List E

abbrev pub Exec {ℓ} : Type ℓ → Type ℓ
Exec A = Traced Effect A

abbrev pub after {ℓ} : {E : Type 0} {A : Type ℓ} → List E → Traced E A → Traced E A
after es (r, fs) = (r, es ++ fs)

infixl 5 ◌>>=◌ ◌>>◌
abbrev pub ◌>>=◌ {ℓ κ} :
    {E : Type 0} {A : Type ℓ} {B : Type κ} → Traced E A → (A → Traced E B) → Traced E B
(normal a, es) >>= f = after es (f a)
(throw v, es) >>= f = (throw v, es)

abbrev pub ◌>>◌ {ℓ κ} :
    {E : Type 0} {A : Type ℓ} {B : Type κ} → Traced E A → Traced E B → Traced E B
m >> k = m >>= λ _. k

abbrev pub emit : {E : Type 0} → E → Traced E (Unit {0})
emit e = (normal tt, e ∷ [])

abbrev pub lift {ℓ} : {E : Type 0} {A : Type ℓ} → Completion A → Traced E A
lift c = (c, [])

abbrev pub fail {ℓ} : {E : Type 0} {A : Type ℓ} → Value → Traced E A
fail v = (throw v, [])

abbrev pub pure {ℓ} : {E : Type 0} {A : Type ℓ} → A → Traced E A
pure a = (normal a, [])
