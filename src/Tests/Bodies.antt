-- ===== src/Tests/Bodies.antt =====
-- The theorem on the bodies of requests at a concrete input.
use queue_worker_kit.Prelude.{
  ◌≡◌, ◌==◌, refl, arith, subst, sym, ap, codes, text_eq, not, ◌&&◌, ◌||◌, ◌++◌, Bool, true,
  Bool-cases, [], some, any, ◌↔◌, inl, inr, if◌then◌else◌,
}
use queue_worker_kit.Config.Defaults.{email}
use queue_worker_kit.Values.{nat, normal}
use queue_worker_kit.Json.{Json, null, bool, str, num, arr, obj, Fields, end, field, get_field}
use queue_worker_kit.Dictionary.{lookup, insert}
use queue_worker_kit.Jobs.Definitions.{send_email_job}
use queue_worker_kit.Jobs.Types.{Parsed, success, failure, success-injective}
use queue_worker_kit.Jobs.Schemas.{
  Formats, ObjectSchema, ObjectParser, ObjectParserLaws, all_fit, only_keys, picked, is_slug,
  with_payload_schemas,
}
use queue_worker_kit.Queue.Enqueue.Prepare.{Prepared, prepare}
use queue_worker_kit.Queue.Registry.{Queue, get, create_queue_registry}
use queue_worker_kit.Api.Jobs.{split_enqueue_options}
use queue_worker_kit.Api.Jobs.EndToEnd.{OptionsFit}
use queue_worker_kit.Api.Jobs.Schemas.{email_route, body_schema, job_of}
use queue_worker_kit.Api.Jobs.Schemas.Laws.{definition_of, accepted-prepared}
use queue_worker_kit.Tests.Fixtures.{test_zod}
use queue_worker_kit.Tests.Kit.{answering, test_queues, test_caller}

abbrev pub formats : Formats
formats = record { is_email = any (λ c. c == b'@'); is_datetime = λ s. true }

abbrev passes : ObjectSchema → Fields → Bool
passes s fs = all_fit formats s.shape fs && (not s.is_strict || only_keys s.shape fs)

abbrev parse : ObjectSchema → Json → Parsed Fields
parse s (obj fs) = if passes s fs then success (picked s.shape fs) else failure []
parse s j = failure []

abbrev pub parser : ObjectParser
parser = record { parse = parse; extend = λ s more. record s { shape = s.shape ++ more } }

abbrev Passes : ObjectSchema → Fields → Type 0
Passes s fs =
    (all_fit formats s.shape fs ≡ true) × (s.is_strict ≡ true → only_keys s.shape fs ≡ true)

passes_iff : (s : ObjectSchema) (fs : Fields) → (passes s fs ≡ true) ↔ Passes s fs
passes_iff s fs = ground arith

parser-obj :
    (s : ObjectSchema) (fs out : Fields)
    → (parse s (obj fs) ≡ success out) ↔ (Passes s fs × (out ≡ picked s.shape fs))
parser-obj s fs out = elim (Bool-cases (passes s fs)) [
  | inl y ↦ rw y (
    (λ h. ((passes_iff s fs).0 y, sym (success-injective h))),
    λ h. ap (λ (x : Fields). success x) (sym h.1),
  )
  | inr n ↦ rw n ((λ h. cc), λ h. let yes = (passes_iff s fs).1 h.0 in cc)
]

pub parser-laws : ObjectParserLaws formats parser
parser-laws = record { parse_iff = parse_iff; extend_adds = λ s more h. refl }
  where
    parse_iff :
        (s : ObjectSchema) (j : Json) (out : Fields)
        → (parse s j ≡ success out) ↔ (
            (fs : Fields) × (j ≡ obj fs)
            × (all_fit formats s.shape fs ≡ true)
            × (s.is_strict ≡ true → only_keys s.shape fs ≡ true)
            × (out ≡ picked s.shape fs))
    parse_iff s (obj fs) out = (
      (λ h.
          let (passed, same) = (parser-obj s fs out).0 h in
          let (fit, known) = passed in (fs, refl, fit, known, same)),
      λ (x, e, fit, known, same).
          subst (λ (j : Json). parse s j ≡ success out) (sym e)
            ((parser-obj s x out).1 ((fit, known), same)),
    )
    parse_iff s null out = ((λ h. cc), λ h. cc)
    parse_iff s (bool b) out = ((λ h. cc), λ h. cc)
    parse_iff s (num n) out = ((λ h. cc), λ h. cc)
    parse_iff s (str t) out = ((λ h. cc), λ h. cc)
    parse_iff s (arr xs) out = ((λ h. cc), λ h. cc)

abbrev body : Fields
body = field (codes "to") (str (codes "a@example.com")) (
    field (codes "template") (str (codes "welcome-2"))
      (field (codes "userId") (str (codes "7")) (field (codes "delay") (num (nat 5_000)) end)))

abbrev queue : Queue
queue = answering email

body_passes : parse (body_schema parser email_route) (obj body) ≡ success body
unfolding body_schema is_slug get_field text_eq
body_passes = refl

registered :
    get test_queues (definition_of (with_payload_schemas parser test_zod) email_route).queue
    ≡ some queue
unfolding get create_queue_registry lookup insert text_eq send_email_job
registered = refl

accepted-prepared_example :
    ((p : Prepared) × (prepare
          (with_payload_schemas parser test_zod)
          test_queues
          test_caller
          (job_of email_route)
          (obj (split_enqueue_options body).1)
          (split_enqueue_options body).0
        ≡ normal p))
    × OptionsFit (split_enqueue_options body).0
accepted-prepared_example =
    accepted-prepared formats parser parser-laws test_zod test_queues test_caller email_route
      (obj body) body queue body_passes registered
