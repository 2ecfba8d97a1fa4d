-- ===== src/Values.antt =====
-- JavaScript values as the program meets them where it handles `unknown`: what may be thrown
-- (src/errors/errors.ts, src/api/errors.ts and src/config/env.ts declare the program's own error classes), property
-- reads that may throw, and completions of a call.
use queue_worker_kit.Prelude.{
  ℕ, suc, Text, codes, decimal, join, ◌++◌, Bool, true, false, List, ◌∷◌, Option, none, some,
  if◌then◌else◌, text_eq, ◌≡◌, ◌⊎◌, inl, inr, refl, arith,
}

-- A number by what `String` prints: an integer in the safe range, or any other number.
pub data Number : Type 0 where
  nat : ℕ → Number
  negative : ℕ → Number
  other : Text → Number

-- `String(n)`; `negative n` is -(n + 1).
unfoldable pub number_text : Number → Text
number_text (nat n) = decimal n
number_text (negative n) = codes "-" ++ decimal (suc n)
number_text (other s) = s

pub data ApiErrorCode : Type 0 where
  validation_error not_found_code unknown_job_code unauthorized : ApiErrorCode
  payload_too_large rate_limited service_unavailable internal_error : ApiErrorCode

-- `object` is the address of an object that the program did not build; `kit` is an error that one
-- of the program's constructors built; `opaque` is a symbol, a function or a bigint, with the text
-- that `String` gives for it.
mutual
  pub data Value : Type 0 where
    undefined null : Value
    bool : Bool → Value
    num : Number → Value
    str : Text → Value
    opaque : Text → Value
    object : ℕ → Value
    kit : KitError → Value

  -- A value for each `new` expression, with the arguments of the constructor.
  pub data KitError : Type 0 where
    plain : Text → KitError
    non_retryable : Text → Value → KitError
    payload_validation : Text → List Text → KitError
    unknown_job : Text → KitError
    transient : Text → Value → KitError
    job_timeout : ℕ → KitError
    job_cancelled : Text → KitError
    http : ℕ → ApiErrorCode → Text → Option (List Text) → KitError
    config : List Text → KitError

-- How a call ends.
pub data Completion {ℓ} (A : Type ℓ) : Type ℓ where
  normal : A → Completion A
  throw : Value → Completion A

infixl 5 ◌>>=◌ ◌>>◌
abbrev pub ◌>>=◌ {ℓ κ} :
    {A : Type ℓ} {B : Type κ} → Completion A → (A → Completion B) → Completion B
normal a >>= f = f a
throw v >>= f = throw v

abbrev pub ◌>>◌ {ℓ κ} : {A : Type ℓ} {B : Type κ} → Completion A → Completion B → Completion B
m >> k = m >>= λ _. k

-- What the program can ask of an object: the classes that it tests by `instanceof`, the contents
-- that only some classes have, and its properties, whose getters may throw.
pub record Issue : Type 0 where
  pub path : List Text
  pub message : Text

pub record ValidationIssue : Type 0 where
  pub instance_path : Text
  pub message : Text

pub record Object : Type 0 where
  pub is_error : Bool
  pub is_unrecoverable : Bool
  pub is_non_retryable : Bool
  pub zod_issues : Option (List Issue)
  pub validation : Option (List ValidationIssue)
  pub get : Text → Completion Value

-- The host: the objects by address, the `stack` that the engine gives to an error, and
-- `JSON.stringify`, which may throw.
pub record Host : Type 0 where
  pub objects : ℕ → Object
  pub stack_of : KitError → Value
  pub stringify : Value → Completion Text

-- `error.name`, `error.message` and the other own properties that the constructors set.
unfoldable pub kit_name : KitError → Text
kit_name (plain m) = codes "Error"
kit_name (non_retryable m c) = codes "NonRetryableError"
kit_name (payload_validation m i) = codes "PayloadValidationError"
kit_name (unknown_job n) = codes "UnknownJobError"
kit_name (transient m c) = codes "TransientError"
kit_name (job_timeout ms) = codes "JobTimeoutError"
kit_name (job_cancelled r) = codes "JobCancelledError"
kit_name (http s c m d) = codes "HttpError"
kit_name (config i) = codes "ConfigError"

-- "\n  - "
abbrev bullet : Text
bullet = b'\n' ∷ codes "  - "

unfoldable pub kit_message : KitError → Text
kit_message (plain m) = m
kit_message (non_retryable m c) = m
kit_message (payload_validation m i) = m
kit_message (unknown_job n) = codes "No job definition registered for \"" ++ (n ++ codes "\"")
kit_message (transient m c) = m
kit_message (job_timeout ms) = codes "Job exceeded its " ++ (decimal ms ++ codes "ms timeout")
kit_message (job_cancelled r) = codes "Job cancelled: " ++ r
kit_message (http s c m d) = m
kit_message (config i) = codes "Invalid environment configuration:" ++ (bullet ++ join bullet i)

unfoldable pub kit_cause : KitError → Value
kit_cause (non_retryable m c) = c
kit_cause (transient m c) = c
kit_cause _ = undefined

unfoldable pub api_code_text : ApiErrorCode → Text
api_code_text validation_error = codes "VALIDATION_ERROR"
api_code_text not_found_code = codes "NOT_FOUND"
api_code_text unknown_job_code = codes "UNKNOWN_JOB"
api_code_text unauthorized = codes "UNAUTHORIZED"
api_code_text payload_too_large = codes "PAYLOAD_TOO_LARGE"
api_code_text rate_limited = codes "RATE_LIMITED"
api_code_text service_unavailable = codes "SERVICE_UNAVAILABLE"
api_code_text internal_error = codes "INTERNAL_ERROR"

kit_code : KitError → Value
kit_code (http s c m d) = str (api_code_text c)
kit_code _ = undefined

kit_status : KitError → Value
kit_status (http s c m d) = num (nat s)
kit_status _ = undefined

-- The classes of the program extend BullMQ's `UnrecoverableError`, or `Error` directly.
unfoldable pub kit_non_retryable : KitError → Bool
kit_non_retryable (non_retryable m c) = true
kit_non_retryable (payload_validation m i) = true
kit_non_retryable (unknown_job n) = true
kit_non_retryable _ = false

kit_get : Host → KitError → Text → Value
kit_get host e key =
    if text_eq key (codes "name")
    then str (kit_name e)
    else if text_eq key (codes "message")
    then str (kit_message e)
    else if text_eq key (codes "stack")
    then host.stack_of e
    else if text_eq key (codes "cause")
    then kit_cause e
    else if text_eq key (codes "code")
    then kit_code e
    else if text_eq key (codes "statusCode")
    then kit_status e
    else undefined

unfoldable pub kit_object : Host → KitError → Object
unfolding kit_get kit_code kit_status
kit_object host e = record {
  is_error = true;
  is_unrecoverable = kit_non_retryable e;
  is_non_retryable = kit_non_retryable e;
  zod_issues = none;
  validation = none;
  get = λ key. normal (kit_get host e key);
}

-- The object that a value is, if it is one.
unfoldable pub object_of : Host → Value → Option Object
object_of host (object a) = some (host.objects a)
object_of host (kit e) = some (kit_object host e)
object_of host _ = none

module _ {ℓ κ} {A : Type ℓ} {B : Type κ} where
  pub >>=-eq-throw :
      (m : Completion A) (f : A → Completion B) {v : Value}
      → (m >>= f) ≡ throw v
      → (m ≡ throw v) ⊎ ((a : A) × (m ≡ normal a) × (f a ≡ throw v))
  >>=-eq-throw (normal a) f h = inr (a, refl, h)
  >>=-eq-throw (throw v) f h = inl (ground arith)

  pub >>=-eq-normal :
      (m : Completion A) (f : A → Completion B) {b : B}
      → (m >>= f) ≡ normal b
      → (a : A) × (m ≡ normal a) × (f a ≡ normal b)
  >>=-eq-normal (normal a) f h = (a, refl, h)
  >>=-eq-normal (throw v) f h = cc

pub normal-injective {ℓ} : {A : Type ℓ} {a b : A} → normal a ≡ normal b → a ≡ b
normal-injective h = cc

pub throw-injective {ℓ} :
    {A : Type ℓ} {v w : Value} → ◌≡◌ {A = Completion A} (throw v) (throw w) → v ≡ w
throw-injective h = cc
