-- ===== src/Api/Errors/Validation.antt =====
-- Route validation: `toValidationError` and `createErrorHandler` of src/api/errors.ts, and the
-- validator compiler and the answer for unknown routes of src/api/app.ts.
use queue_worker_kit.Prelude.{
  ℕ, suc, ◌==◌, leb, ◌≡◌, refl, ap, ◌∙◌, arith, Text, codes, length, map, join, Lacks, All, ◌++◌,
  List, [], ◌∷◌, Bool, none, some, if◌then◌else◌,
}
use queue_worker_kit.Values.{
  Value, str, object, plain, kit_object, not_found_code, validation_error, normal, Issue,
  ValidationIssue, Object, Host, object_of,
}
use queue_worker_kit.Json.{Json}
use queue_worker_kit.Jobs.Types.{Parsed, success, failure}
use queue_worker_kit.Observability.Effects.{
  Exec, Level, log, warn, error, lift, emit, pure, ◌>>=◌, ◌>>◌,
}
use queue_worker_kit.Api.Errors.{
  ErrorResponse, response, dotted, format_zod_issue, format_zod_issues, format_validation_issue,
  build_error_response,
}

abbrev to_issue : Issue → ValidationIssue
to_issue issue = record {
  instance_path = codes "/" ++ join (codes "/") issue.path;
  message = issue.message;
}

unfoldable pub to_validation_error : Host → List Issue → Object
to_validation_error host issues =
    record (kit_object host (plain (codes "Request validation failed"))) {
      validation = some (map to_issue issues);
    }

-- The validator of a route: the value, or the error.
pub data Validated {ℓ} (A : Type ℓ) : Type ℓ where
  value : A → Validated A
  refused : Object → Validated A

unfoldable pub compile_validator : {A : Type 0} → Host → (Json → Parsed A) → Json → Validated A
unfolding to_validation_error
compile_validator host safe_parse body = elim (safe_parse body) [
  | success a ↦ value a
  | failure issues ↦ refused (to_validation_error host issues)
]

level_of : ℕ → Level
level_of status = if leb 500 status then error else warn

-- The error handler: the response, and one log record, whose level is that of the status.
unfoldable pub handle_error : Host → Bool → Value → Exec ErrorResponse
unfolding level_of
handle_error host exposed e = do
  r ← lift (build_error_response host exposed e)
  emit (log (level_of r.status_code) (codes "request failed"))
  pure r

unfoldable pub not_found_response : Text → Text → ErrorResponse
not_found_response method url =
    response 404 not_found_code
      (str (codes "Route " ++ (method ++ (codes " " ++ (url ++ codes " not found"))))) none

dotted-Lacks : (s : Text) → Lacks 47 s → dotted s ≡ s
unfolding dotted
dotted-Lacks [] h = refl
dotted-Lacks (c ∷ s) h = ground (arith, dotted-Lacks s, h)

dotted-append : (s t : Text) → dotted (s ++ t) ≡ dotted s ++ dotted t
unfolding dotted
dotted-append [] t = refl
dotted-append (c ∷ s) t = ap (λ (l : Text). (if c == 47 then 46 else c) ∷ l) (dotted-append s t)

length-dotted : (s : Text) → length (dotted s) ≡ length s
unfolding dotted
length-dotted [] = refl
length-dotted (c ∷ s) = ap suc (length-dotted s)

dotted-join :
    (path : List Text)
    → All (Lacks 47) path
    → dotted (join (codes "/") path) ≡ join (codes ".") path
unfolding join dotted
dotted-join [] h = refl
dotted-join (x ∷ []) h = dotted-Lacks x h.0
dotted-join (x ∷ y ∷ r) h =
    dotted-append x (codes "/" ++ join (codes "/") (y ∷ r))
    ∙ ground (arith, dotted-Lacks x h.0, dotted-join (y ∷ r) h.1)

-- No key of the path has a slash.
abbrev pub IsPlain : Issue → Type 0
IsPlain issue = All (Lacks 47) issue.path

format-to_issue :
    (i : Issue) → IsPlain i → format_validation_issue (to_issue i) ≡ format_zod_issue i
unfolding format_validation_issue format_zod_issue
format-to_issue i h =
    let e = dotted-join i.path h in
    let n = length-dotted (join (codes "/") i.path) in
    ground (arith, e, n, ap (λ (s : Text). length s) e)

formats_agree :
    (issues : List Issue)
    → All IsPlain issues
    → map format_validation_issue (map to_issue issues) ≡ format_zod_issues issues
unfolding format_zod_issues
formats_agree [] h = refl
formats_agree (i ∷ issues) h = ground (arith, format-to_issue i h.0, formats_agree issues h.1)

-- A request that a route's schema refuses is answered with 400, whatever internals may be shown,
-- and logged as a warning. Its details are those that zod's own error would give, key by key,
-- although they have gone through the paths of Fastify's errors, where no key has a slash. The
-- object is the one that the validator made, with any stack.
pub handle_error-validation :
    (maker host : Host) (exposed : Bool) (address : ℕ) (issues : List Issue)
    → host.objects address ≡ to_validation_error maker issues
    → All IsPlain issues
    → handle_error host exposed (object address) ≡ (
      normal (
          response 400 validation_error
            (str (codes "Invalid request"))
            (some (format_zod_issues issues))),
      log warn (codes "request failed") ∷ [],
    )
unfolding handle_error build_error_response to_validation_error object_of kit_object level_of
handle_error-validation maker host exposed address issues h plain_keys =
    rw (h, formats_agree issues plain_keys) refl
