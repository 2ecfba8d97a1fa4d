-- ===== src/Errors.antt =====
-- src/errors/errors.ts: which errors BullMQ will not retry.
pub mod Laws
use queue_worker_kit.Prelude.{
  Text, codes, text_eq, ◌||◌, Bool, true, false, Option, none, some, if◌then◌else◌,
}
use queue_worker_kit.Values.{
  Value, undefined, null, bool, num, str, opaque, object, kit, Completion, normal, throw, ◌>>=◌,
  Object, Host, object_of,
}

abbrev is_text : Value → Text → Bool
is_text (str s) t = text_eq s t
is_text _ t = false

-- `error.name === 'A' || …`; the getter is read once for each test, with the same result.
unfoldable pub named_non_retryable : Value → Bool
named_non_retryable name =
    is_text name (codes "UnrecoverableError")
    || (is_text name (codes "NonRetryableError")
        || (is_text name (codes "PayloadValidationError")
            || is_text name (codes "UnknownJobError")))

is_non_retryable_object : Object → Completion Bool
unfolding named_non_retryable
is_non_retryable_object o =
    if o.is_unrecoverable
    then normal true
    else if o.is_error
    then (do name ← o.get (codes "name"); normal (named_non_retryable name))
    else normal false

unfoldable pub is_non_retryable_error : Host → Value → Completion Bool
unfolding is_non_retryable_object
is_non_retryable_error host error = elim (object_of host error) [
  | none ↦ normal false
  | some o ↦ is_non_retryable_object o
]

pub data ErrorClassification : Type 0 where
  non_retryable_class retryable_class : ErrorClassification

unfoldable pub classify_error : Host → Value → Completion ErrorClassification
classify_error host error = do
  final ← is_non_retryable_error host error
  normal (if final then non_retryable_class else retryable_class)
