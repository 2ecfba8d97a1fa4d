-- ===== src/Api/Errors/Laws.antt =====
-- What an error response reveals, and which statuses it has (src/api/errors.ts).
use mathlib.Core.Logic.{inl, inr}
use queue_worker_kit.Prelude.{
  ℕ, ◌≤◌, ◌<◌, ◌≡◌, ◌⊎◌, ◌≢◌, some-eq-some, subst, refl, arith, codes, leb, ltb, ◌&&◌, List, Bool,
  true, false, Bool-cases, Option, none, some,
}
use queue_worker_kit.Values.{
  Value, str, kit, http, payload_validation, unknown_job, internal_error, normal, >>=-eq-normal,
  normal-injective, Issue, ValidationIssue, Object, Host, object_of,
}
use queue_worker_kit.Api.Errors.{
  ErrorResponse, read, status_of, code_for_status, message_for_status, own_response,
  object_response, classed, when_error, after_own, after_classes, unexpected, by_code, by_status,
  is_too_large, foreign_response, build_error_response,
}

-- The status and the code belong together: a client error, or 500 and `INTERNAL_ERROR`.
abbrev pub IsConsistent : ErrorResponse → Type 0
IsConsistent r =
    ((400 ≤ r.status_code) × (r.status_code < 500) × (r.code ≢ internal_error))
    ⊎ ((r.status_code ≡ 500) × (r.code ≡ internal_error))

-- The message says no more than the status does, and there is no detail.
abbrev pub Hides : ErrorResponse → Type 0
Hides r =
    (r.details ≡ none)
    × ((r.message ≡ str (message_for_status r.status_code))
        ⊎ (r.message ≡ str (codes "An unexpected error occurred")))

code_for_status-client : (status : ℕ) → code_for_status status ≢ internal_error
unfolding code_for_status
code_for_status-client status = ground arith

module _ (host : Host) (exposed : Bool) (error : Value) where
  by_status-IsConsistent : (status : Option ℕ) → IsConsistent (by_status host exposed error status)
  unfolding unexpected
  by_status-IsConsistent none = inr (refl, refl)
  by_status-IsConsistent (some status) = elim (Bool-cases (leb 400 status && ltb status 500)) [
    | inl y ↦ rw y (inl (ground arith, ground arith, code_for_status-client status))
    | inr n ↦ rw n (inr (refl, refl))
  ]

  by_code-IsConsistent :
      (large : Bool) (r : ErrorResponse)
      → by_code host exposed error large ≡ normal r
      → IsConsistent r
  by_code-IsConsistent true r h =
      subst IsConsistent (normal-injective h) (inl (omega arith, omega arith, ground arith))
  by_code-IsConsistent false r h =
      let (status, e, last) = >>=-eq-normal (read host error (codes "statusCode")) _ h in
      subst IsConsistent (normal-injective last) (by_status-IsConsistent (status_of status))

  foreign-IsConsistent :
      (r : ErrorResponse) → foreign_response host exposed error ≡ normal r → IsConsistent r
  unfolding foreign_response
  foreign-IsConsistent r h =
      let (code, e, last) = >>=-eq-normal (read host error (codes "code")) _ h in
      by_code-IsConsistent (is_too_large code) r last

by_status-Hides :
    (host : Host) (error : Value) (status : Option ℕ) → Hides (by_status host false error status)
unfolding unexpected
by_status-Hides host error none = (refl, inr refl)
by_status-Hides host error (some status) = elim (Bool-cases (leb 400 status && ltb status 500)) [
  | inl y ↦ rw y (refl, inl refl)
  | inr n ↦ rw n (refl, inr refl)
]

by_code-Hides :
    (host : Host) (error : Value) (large : Bool) (r : ErrorResponse)
    → by_code host false error large ≡ normal r
    → Hides r
unfolding message_for_status
by_code-Hides host error true r h = subst Hides (normal-injective h) (refl, inl refl)
by_code-Hides host error false r h =
    let (status, e, last) = >>=-eq-normal (read host error (codes "statusCode")) _ h in
    subst Hides (normal-injective last) (by_status-Hides host error (status_of status))

-- Where internals are not exposed, an error that is none of the six recognised kinds is answered
-- without detail and with a message that its status fixes, or with the one message for unexpected
-- errors: no text of the error reaches the message.
pub build_error_response-Hides :
    (host : Host) (error : Value) (r : ErrorResponse)
    → own_response error ≡ none
    → classed (object_of host error) ≡ none
    → build_error_response host false error ≡ normal r
    → Hides r
unfolding build_error_response foreign_response
build_error_response-Hides host error r own class h =
    let (code, e, last) = >>=-eq-normal (read host error (codes "code")) _ (rw (own, class) at h) in
    by_code-Hides host error (is_too_large code) r last

abbrev pub is_http_error : Value → Bool
is_http_error (kit (http status code message details)) = true
is_http_error v = false

module _ (host : Host) (exposed : Bool) (error : Value) where
  class-IsConsistent :
      (o : Object) (z : Option (List Issue)) (v : Option (List ValidationIssue)) (n : Bool)
      (r : ErrorResponse)
      → after_classes (object_response o z v n) (foreign_response host exposed error) ≡ normal r
      → IsConsistent r
  class-IsConsistent o (some issues) v n r h =
      subst IsConsistent (normal-injective h) (inl (omega arith, omega arith, ground arith))
  class-IsConsistent o none (some issues) n r h =
      subst IsConsistent (normal-injective h) (inl (omega arith, omega arith, ground arith))
  class-IsConsistent o none none true r h =
      let (message, e, last) = >>=-eq-normal (o.get (codes "message")) _ h in
      subst IsConsistent (normal-injective last) (inl (omega arith, omega arith, ground arith))
  class-IsConsistent o none none false r h = foreign-IsConsistent host exposed error r h

  object-IsConsistent :
      (o : Option Object) (r : ErrorResponse)
      → after_classes (classed o) (foreign_response host exposed error) ≡ normal r
      → IsConsistent r
  object-IsConsistent none r h = foreign-IsConsistent host exposed error r h
  object-IsConsistent (some o) r h =
      class-IsConsistent o o.zod_issues (when_error o.is_error o.validation) o.is_non_retryable r h

  own-IsConsistent :
      (own : Option ErrorResponse) (r : ErrorResponse)
      → ((a : ErrorResponse) → own ≡ some a → IsConsistent a)
      → after_own own
          (after_classes (classed (object_of host error)) (foreign_response host exposed error))
        ≡ normal r
      → IsConsistent r
  own-IsConsistent none r answers h = object-IsConsistent (object_of host error) r h
  own-IsConsistent (some a) r answers h = subst IsConsistent (normal-injective h) (answers a refl)

own_response-IsConsistent :
    (error : Value) (a : ErrorResponse)
    → is_http_error error ≡ false
    → own_response error ≡ some a
    → IsConsistent a
own_response-IsConsistent (kit (http status code message details)) a n h = ground (arith, n)
own_response-IsConsistent (kit (payload_validation message issues)) a n h =
    subst IsConsistent (some-eq-some h) (inl (omega arith, omega arith, ground arith))
own_response-IsConsistent (kit (unknown_job name)) a n h =
    subst IsConsistent (some-eq-some h) (inl (omega arith, omega arith, ground arith))
own_response-IsConsistent _ a n h = ground (arith, h)

-- Every answer, except to an `HttpError`, which carries its own status and code, is a client error
-- whose code is not `INTERNAL_ERROR`, or 500 with `INTERNAL_ERROR`.
pub build_error_response-IsConsistent :
    (host : Host) (exposed : Bool) (error : Value) (r : ErrorResponse)
    → is_http_error error ≡ false
    → build_error_response host exposed error ≡ normal r
    → IsConsistent r
unfolding build_error_response
build_error_response-IsConsistent host exposed error r n h =
    own-IsConsistent host exposed error (own_response error) r
      (λ a e. own_response-IsConsistent error a n e) h
