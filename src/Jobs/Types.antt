-- ===== src/Jobs/Types.antt =====
-- src/jobs/types.ts: job definitions and what travels through Redis.
use queue_worker_kit.Prelude.{
  ℕ, List, ◌≤◌, length, Text, codes, Bool, true, Option, none, some, ◌≡◌,
}
use queue_worker_kit.Values.{Issue, Number}
use queue_worker_kit.Json.{Json, str, obj, end, field, optional_field}

-- The result of zod's `safeParse`.
pub data Parsed {ℓ} (A : Type ℓ) : Type ℓ where
  success : A → Parsed A
  failure : List Issue → Parsed A

pub success-injective {ℓ} : {A : Type ℓ} {a b : A} → success a ≡ success b → a ≡ b
success-injective h = cc

-- `JobDefaultOptions`: what a definition may pin.
pub record JobDefaultOptions : Type 0 where
  pub attempts : Option ℕ
  pub backoff : Option Json
  pub priority : Option ℕ
  pub remove_on_complete : Option Json
  pub remove_on_fail : Option Json

abbrev pub no_options : JobDefaultOptions
no_options = record {
  attempts = none;
  backoff = none;
  priority = none;
  remove_on_complete = none;
  remove_on_fail = none;
}

pub record Deduplication : Type 0 where
  pub id : Text
  pub ttl : ℕ

-- BullMQ's `JobsOptions`, as far as the program sets them.
pub record JobsOptions : Type 0 where
  pub defaults : JobDefaultOptions
  pub delay : Option Number
  pub deduplication : Option Deduplication

-- The schema is what its `safeParse` does; a payload is the JSON value that it gives.
pub record JobDefinition : Type 0 where
  pub name : Text
  pub queue : Text
  pub schema : Json → Parsed Json
  pub default_job_options : JobDefaultOptions
  pub timeout_ms : Option ℕ

pub record JobMeta : Type 0 where
  pub correlation_id : Text
  pub enqueued_at : Text
  pub idempotency_key : Option Text

pub record JobEnvelope : Type 0 where
  pub payload : Json
  pub meta : JobMeta

abbrev as_json : Option Text → Option Json
as_json none = none
as_json (some s) = some (str s)

-- The metadata and the envelope as they are written to Redis.
unfoldable pub meta_json : JobMeta → Json
meta_json m = obj (
    field (codes "correlationId") (str m.correlation_id) (
      field (codes "enqueuedAt") (str m.enqueued_at)
        (optional_field (codes "idempotencyKey") (as_json m.idempotency_key) end)))

unfoldable pub envelope_json : JobEnvelope → Json
envelope_json e =
    obj (field (codes "payload") e.payload (field (codes "meta") (meta_json e.meta) end))

-- What a processor is handed, besides the logger, the signal and the job itself.
pub record ProcessorContext : Type 0 where
  pub payload : Json
  pub correlation_id : Text
  pub attempt : ℕ

-- zod at the schemas of the program: the two steps of an envelope's validation, the metadata
-- alone, the three payload schemas, and its check of an ISO date-time.
pub record Zod : Type 0 where
  pub parse_envelope : Json → Parsed JobEnvelope
  pub parse_meta : Option Json → Parsed JobMeta
  pub send_email_payload : Json → Parsed Json
  pub generate_report_payload : Json → Parsed Json
  pub cleanup_payload : Json → Parsed Json
  pub is_datetime : Text → Bool

abbrev pub HasLength : ℕ → ℕ → Text → Type 0
HasLength lo hi s = (lo ≤ length s) × (length s ≤ hi)

abbrev pub KeyFits : Option Text → Type 0
KeyFits none = Unit
KeyFits (some key) = HasLength 1 200 key

-- What `jobMetaSchema` asks of the metadata.
pub record IsValidMeta (zod : Zod) (m : JobMeta) : Type 0 where
  pub correlation_id : HasLength 1 200 m.correlation_id
  pub enqueued_at : zod.is_datetime m.enqueued_at ≡ true
  pub idempotency_key : KeyFits m.idempotency_key

-- What the program relies on: zod accepts what `jobMetaSchema` and `envelopeShapeSchema`
-- describe, and nothing else; a payload that it has accepted is accepted again as it is, since the
-- payload schemas transform nothing.
pub record ZodLaws (zod : Zod) : Type 0 where
  pub envelope_accepts :
      (e : JobEnvelope) → IsValidMeta zod e.meta → zod.parse_envelope (envelope_json e) ≡ success e
  pub envelope_sound :
      (j : Json) (e : JobEnvelope) → zod.parse_envelope j ≡ success e → IsValidMeta zod e.meta
  pub envelope_of_json :
      (e f : JobEnvelope) → zod.parse_envelope (envelope_json e) ≡ success f → f.meta ≡ e.meta
  pub meta_accepts :
      (m : JobMeta) → IsValidMeta zod m → zod.parse_meta (some (meta_json m)) ≡ success m
  pub send_email_again :
      (j k : Json) → zod.send_email_payload j ≡ success k → zod.send_email_payload k ≡ success k
  pub generate_report_again :
      (j k : Json)
      → zod.generate_report_payload j ≡ success k
      → zod.generate_report_payload k ≡ success k
  pub cleanup_again :
      (j k : Json) → zod.cleanup_payload j ≡ success k → zod.cleanup_payload k ≡ success k
