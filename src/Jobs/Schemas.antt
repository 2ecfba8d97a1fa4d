-- ===== src/Jobs/Schemas.antt =====
-- zod's object schemas as the job definitions and the job endpoints write them
-- (src/jobs/definitions/*.job.ts, src/api/routes/jobs.routes.ts): data, which zod reads.
use queue_worker_kit.Prelude.{
  ℕ, leb, Text, codes, text_eq, length, any, all, ◌++◌, ◌&&◌, ◌||◌, not, List, [], ◌∷◌, Bool, true,
  false, Option, none, some, ◌≡◌, ◌↔◌,
}
use queue_worker_kit.Values.{nat}
use queue_worker_kit.Json.{Json, bool, num, str, obj, Fields, end, field, get_field, optional_field}
use queue_worker_kit.Jobs.Types.{Parsed, success, failure, Zod}

-- `z.string().min(lo).max(hi)`, also with a pattern; `z.email()`, `z.iso.datetime()`, `z.boolean()`,
-- `z.enum(names)` and `z.number().int().min(lo).max(hi)`.
pub data Check : Type 0 where
  string : ℕ → ℕ → Check
  pattern : ℕ → ℕ → (Text → Bool) → Check
  email datetime boolean : Check
  enum : List Text → Check
  integer : ℕ → ℕ → Check

pub record Key : Type 0 where
  pub name : Text
  pub check : Check
  pub optional : Bool

abbrev pub Shape : Type 0
Shape = List Key

pub record ObjectSchema : Type 0 where
  pub shape : Shape
  pub is_strict : Bool

abbrev pub object : Shape → ObjectSchema
object shape = record { shape = shape; is_strict = false }

abbrev pub required : Text → Check → Key
required name check = record { name = name; check = check; optional = false }

abbrev pub optional : Text → Check → Key
optional name check = record { name = name; check = check; optional = true }

abbrev pub has_key : Text → Shape → Bool
has_key name [] = false
has_key name (k ∷ shape) = text_eq name k.name || has_key name shape

-- `/^[a-z0-9][a-z0-9-]*$/`
abbrev is_between : ℕ → ℕ → ℕ → Bool
is_between lo hi c = leb lo c && leb c hi

abbrev is_slug_start : ℕ → Bool
is_slug_start c = is_between b'a' b'z' c || is_between b'0' b'9' c

unfoldable pub is_slug : Text → Bool
is_slug [] = false
is_slug (c ∷ s) = is_slug_start c && all (λ d. is_slug_start d || is_between b'-' b'-' d) s

abbrev pub send_email_payload_schema : ObjectSchema
send_email_payload_schema = object (
    required (codes "to") email
    ∷ required (codes "template") (pattern 1 64 is_slug)
    ∷ required (codes "userId") (string 1 64)
    ∷ [])

abbrev pub generate_report_payload_schema : ObjectSchema
generate_report_payload_schema = object (
    required (codes "reportId") (string 1 64)
    ∷ required (codes "requestedBy") (string 1 128)
    ∷ required (codes "format") (enum (codes "csv" ∷ codes "json" ∷ []))
    ∷ [])

abbrev pub cleanup_payload_schema : ObjectSchema
cleanup_payload_schema =
    object (required (codes "before") datetime ∷ required (codes "dryRun") boolean ∷ [])

-- zod's tests of an email address and of an ISO date-time.
pub record Formats : Type 0 where
  pub is_email : Text → Bool
  pub is_datetime : Text → Bool

abbrev has_size : ℕ → ℕ → Text → Bool
has_size lo hi s = leb lo (length s) && leb (length s) hi

-- What a check accepts, as zod documents it.
abbrev pub accepts : Formats → Check → Json → Bool
accepts formats (string lo hi) (str s) = has_size lo hi s
accepts formats (pattern lo hi matches) (str s) = has_size lo hi s && matches s
accepts formats email (str s) = formats.is_email s
accepts formats datetime (str s) = formats.is_datetime s
accepts formats boolean (bool b) = true
accepts formats (enum names) (str s) = any (text_eq s) names
accepts formats (integer lo hi) (num (nat n)) = leb lo n && leb n hi
accepts formats check value = false

abbrev pub fits : Formats → Key → Option Json → Bool
fits formats k none = k.optional
fits formats k (some value) = accepts formats k.check value

abbrev pub all_fit : Formats → Shape → Fields → Bool
all_fit formats shape fs = all (λ k. fits formats k (get_field k.name fs)) shape

-- Every key of the object is one of the schema's.
abbrev pub only_keys : Shape → Fields → Bool
only_keys shape end = true
only_keys shape (field name v fs) = has_key name shape && only_keys shape fs

-- The object that zod gives: the schema's keys that are present.
abbrev pub picked : Shape → Fields → Fields
picked [] fs = end
picked (k ∷ shape) fs = optional_field k.name (get_field k.name fs) (picked shape fs)

-- zod at object schemas: `safeParse`, and `extend`.
pub record ObjectParser : Type 0 where
  pub parse : ObjectSchema → Json → Parsed Fields
  pub extend : ObjectSchema → Shape → ObjectSchema

-- What its documentation promises. `extend` adds keys that the schema does not have.
pub record ObjectParserLaws (formats : Formats) (z : ObjectParser) : Type 0 where
  pub parse_iff :
      (s : ObjectSchema) (j : Json) (out : Fields)
      → (z.parse s j ≡ success out) ↔ (
          (fs : Fields) × (j ≡ obj fs)
          × (all_fit formats s.shape fs ≡ true)
          × (s.is_strict ≡ true → only_keys s.shape fs ≡ true)
          × (out ≡ picked s.shape fs))
  pub extend_adds :
      (s : ObjectSchema) (more : Shape)
      → all (λ k. not (has_key k.name s.shape)) more ≡ true
      → (z.extend s more).shape ≡ s.shape ++ more

abbrev pub as_payload : Parsed Fields → Parsed Json
as_payload (success fs) = success (obj fs)
as_payload (failure issues) = failure issues

-- zod at the payload schemas of the program, as the object schemas that these are.
unfoldable pub with_payload_schemas : ObjectParser → Zod → Zod
with_payload_schemas z zod = record zod {
  send_email_payload = λ j. as_payload (z.parse send_email_payload_schema j);
  generate_report_payload = λ j. as_payload (z.parse generate_report_payload_schema j);
  cleanup_payload = λ j. as_payload (z.parse cleanup_payload_schema j);
}
