-- ===== src/Api/Errors.antt =====
-- `buildErrorResponse` of src/api/errors.ts: the status and the body for every error.
pub mod Laws
pub mod Validation
use queue_worker_kit.Prelude.{
  ℕ, Text, codes, text_eq, leb, ltb, ◌==◌, ◌&&◌, ◌||◌, drop, length, map, ◌++◌, List, [], ◌∷◌, Bool,
  true, false, Option, none, some, join, if◌then◌else◌,
}
use queue_worker_kit.Values.{
  Value, undefined, num, str, kit, KitError, http, payload_validation, unknown_job, non_retryable,
  plain, transient, job_timeout, job_cancelled, Number, nat, ApiErrorCode, validation_error,
  not_found_code, unknown_job_code, unauthorized, payload_too_large, rate_limited, internal_error,
  kit_message, Completion, normal, throw, ◌>>=◌, Issue, ValidationIssue, Object, Host, object_of,
}
use queue_worker_kit.Utils.SerializeError.{name_of, message_of, serialize_error}

-- `ApiErrorBody` with its status. A message is a value, since that of an object may be any.
pub record ErrorResponse : Type 0 where
  pub status_code : ℕ
  pub code : ApiErrorCode
  pub message : Value
  pub details : Option (List Text)

unfoldable pub not_found : Text → Value
not_found message = kit (http 404 not_found_code message none)

unfoldable pub format_zod_issue : Issue → Text
format_zod_issue issue =
    let path = join (codes ".") issue.path in
    if ltb 0 (length path) then path ++ (codes ": " ++ issue.message) else issue.message

unfoldable pub format_zod_issues : List Issue → List Text
format_zod_issues = map format_zod_issue

-- `path.replaceAll('/', '.')`
dotted : Text → Text
dotted = map (λ c. if c == 47 then 46 else c)

unfoldable pub format_validation_issue : ValidationIssue → Text
unfolding dotted
format_validation_issue issue =
    if ltb 1 (length issue.instance_path)
    then dotted (drop 1 issue.instance_path) ++ (codes ": " ++ issue.message)
    else issue.message

-- `(error as { key?: unknown } | null)?.key`: a primitive has no such property.
unfoldable pub read : Host → Value → Text → Completion Value
read host error key = elim (object_of host error) [ none ↦ normal undefined | some o ↦ o.get key ]

-- `readStatusCode`, as far as the caller uses it: whole numbers that are not negative.
unfoldable pub status_of : Value → Option ℕ
status_of (num (nat n)) = some n
status_of _ = none

unfoldable pub code_for_status : ℕ → ApiErrorCode
code_for_status status =
    if status == 401 || status == 403
    then unauthorized
    else if status == 404
    then not_found_code
    else if status == 413
    then payload_too_large
    else if status == 429
    then rate_limited
    else validation_error

unfoldable pub message_for_status : ℕ → Text
message_for_status status =
    if status == 401 || status == 403
    then codes "Authentication required"
    else if status == 404
    then codes "Resource not found"
    else if status == 413
    then codes "Request body is too large"
    else if status == 429
    then codes "Too many requests"
    else codes "The request could not be processed"

abbrev pub response : ℕ → ApiErrorCode → Value → Option (List Text) → ErrorResponse
response status code message details = record {
  status_code = status;
  code = code;
  message = message;
  details = details;
}

-- The first three tests: the program's own classes.
abbrev pub own_response : Value → Option ErrorResponse
own_response (kit (http status code message details)) =
    some (response status code (str message) details)
own_response (kit (payload_validation message issues)) =
    some (response 400 validation_error (str (codes "Invalid job payload")) (some issues))
own_response (kit (unknown_job name)) =
    some (response 400 unknown_job_code (str (kit_message (unknown_job name))) none)
own_response v = none

abbrev rejected : Value → ErrorResponse
rejected message = response 400 validation_error message none

-- The next three: an error of zod, one of Fastify's validation, and a `NonRetryableError`.
abbrev pub object_response :
    Object
    → Option (List Issue)
    → Option (List ValidationIssue)
    → Bool
    → Option (Completion ErrorResponse)
object_response o (some issues) v n = some (
    normal (
      response 400 validation_error (str (codes "Invalid request body"))
        (some (format_zod_issues issues))))
object_response o none (some issues) n = some (
    normal (
      response 400 validation_error (str (codes "Invalid request"))
        (some (map format_validation_issue issues))))
object_response o none none true =
    some (do message ← o.get (codes "message"); normal (rejected message))
object_response o none none false = none

abbrev pub when_error : Bool → Option (List ValidationIssue) → Option (List ValidationIssue)
when_error true v = v
when_error false v = none

abbrev pub classed : Option Object → Option (Completion ErrorResponse)
classed none = none
classed (some o) =
    object_response o o.zod_issues (when_error o.is_error o.validation) o.is_non_retryable

unfoldable pub unexpected : Host → Bool → Value → ErrorResponse
unexpected host exposed error =
    let message =
      if exposed
      then name_of (serialize_error host error 0)
        ++ (codes ": " ++ message_of (serialize_error host error 0))
      else codes "An unexpected error occurred" in
    response 500 internal_error (str message) none

abbrev pub by_status : Host → Bool → Value → Option ℕ → ErrorResponse
by_status host exposed error none = unexpected host exposed error
by_status host exposed error (some status) =
    if leb 400 status && ltb status 500
    then response status (code_for_status status) (str (message_for_status status)) none
    else unexpected host exposed error

abbrev pub is_too_large : Value → Bool
is_too_large (str s) = text_eq s (codes "FST_ERR_CTP_BODY_TOO_LARGE")
is_too_large v = false

-- What is left: Fastify's own errors, by their code and their status, and the unexpected ones.
abbrev pub by_code : Host → Bool → Value → Bool → Completion ErrorResponse
by_code host exposed error true =
    normal (response 413 payload_too_large (str (codes "Request body is too large")) none)
by_code host exposed error false = do
  status ← read host error (codes "statusCode")
  normal (by_status host exposed error (status_of status))

unfoldable pub foreign_response : Host → Bool → Value → Completion ErrorResponse
foreign_response host exposed error = do
  code ← read host error (codes "code")
  by_code host exposed error (is_too_large code)

abbrev pub after_classes :
    Option (Completion ErrorResponse) → Completion ErrorResponse → Completion ErrorResponse
after_classes (some r) next = r
after_classes none next = next

abbrev pub after_own : Option ErrorResponse → Completion ErrorResponse → Completion ErrorResponse
after_own (some r) next = normal r
after_own none next = next

unfoldable pub build_error_response : Host → Bool → Value → Completion ErrorResponse
build_error_response host exposed error =
    after_own (own_response error)
      (after_classes (classed (object_of host error)) (foreign_response host exposed error))
