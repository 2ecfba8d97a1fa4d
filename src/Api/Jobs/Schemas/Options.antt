-- ===== src/Api/Jobs/Schemas/Options.antt =====
-- The options that `splitEnqueueOptions` finds in a body which fits their schema.
use queue_worker_kit.Prelude.{◌≡◌, arith, Text, codes, all, true, &&-true, Option, none, some}
use queue_worker_kit.Config.Defaults.{max_enqueue_delay_ms}
use queue_worker_kit.Values.{nat, negative, other}
use queue_worker_kit.Json.{Json, null, bool, arr, num, str, obj, Fields, property}
use queue_worker_kit.Jobs.Types.{KeyFits}
use queue_worker_kit.Jobs.Schemas.{
  Shape, Formats, string, integer, optional, has_key, fits, all_fit, picked,
}
use queue_worker_kit.Queue.Enqueue.Laws.{DelayFits}
use queue_worker_kit.Api.Jobs.{text_of, number_of, split_enqueue_options}
use queue_worker_kit.Api.Jobs.EndToEnd.{OptionsFit}
use queue_worker_kit.Api.Jobs.Schemas.{enqueue_options_schema}
use queue_worker_kit.Api.Jobs.Schemas.Fields.{get_field-picked}

string-fits :
    (formats : Formats) (name : Text) (o : Option Json)
    → fits formats (optional name (string 1 200)) o ≡ true
    → KeyFits (text_of o)
unfolding text_of
string-fits formats name none h = tt
string-fits formats name (some (str s)) h = ground arith
string-fits formats name (some null) h = tt
string-fits formats name (some (bool b)) h = tt
string-fits formats name (some (num n)) h = tt
string-fits formats name (some (arr xs)) h = tt
string-fits formats name (some (obj fs)) h = tt

integer-fits :
    (formats : Formats) (name : Text) (o : Option Json)
    → fits formats (optional name (integer 0 max_enqueue_delay_ms)) o ≡ true
    → DelayFits (number_of o)
unfolding number_of
integer-fits formats name none h = tt
integer-fits formats name (some (num (nat n))) h = ground arith
integer-fits formats name (some (num (negative n))) h = cc
integer-fits formats name (some (num (other t))) h = cc
integer-fits formats name (some (str s)) h = tt
integer-fits formats name (some null) h = tt
integer-fits formats name (some (bool b)) h = tt
integer-fits formats name (some (arr xs)) h = tt
integer-fits formats name (some (obj fs)) h = tt

-- The options of a body that has passed the schema of options, among other keys.
pub options-fit :
    (formats : Formats) (shape : Shape) (fs : Fields)
    → all_fit formats enqueue_options_schema.shape fs ≡ true
    → all (λ k. has_key k.name shape) enqueue_options_schema.shape ≡ true
    → OptionsFit (split_enqueue_options (picked shape fs)).0
      × DelayFits (split_enqueue_options (picked shape fs)).0.delay
unfolding split_enqueue_options property
options-fit formats shape fs h present =
    let (has_id, others) = &&-true (has_key (codes "correlationId") shape) _ present in
    let (has_delay, more) = &&-true (has_key (codes "delay") shape) _ others in
    let (has_idempotency, _) = &&-true (has_key (codes "idempotencyKey") shape) _ more in
    let (id, rest) = &&-true _ _ h in
    let (delay, last) = &&-true _ _ rest in
    let (idempotency, _) = &&-true _ _ last in
    (
      record {
        correlation_id =
            rw (get_field-picked _ shape fs has_id)
              (string-fits formats (codes "correlationId") _ id);
        idempotency_key =
            rw (get_field-picked _ shape fs has_idempotency)
              (string-fits formats (codes "idempotencyKey") _ idempotency);
      },
      rw (get_field-picked _ shape fs has_delay) (integer-fits formats (codes "delay") _ delay),
    )
