-- ===== src/Utils/SerializeError.antt =====
-- src/utils/serialize-error.ts. A circular `cause` chain is a host whose objects name one another.
pub mod Laws
pub mod Exposure
use queue_worker_kit.Prelude.{
  ℕ, zero, suc, ◌-◌, ◌+◌, Text, codes, split, join, length, take, ltb, leb, ◌++◌, List, [], ◌∷◌,
  Bool, true, false, Option, none, some, if◌then◌else◌,
}
use queue_worker_kit.Values.{
  Value, undefined, null, bool, num, str, opaque, object, kit, normal, throw, Object, Host,
  kit_object, number_text,
}
use queue_worker_kit.Config.Defaults.{error_stack_max_lines, error_cause_max_depth}

mutual
  pub data SerializedError : Type 0 where
    serialized : Text → Text → Option Text → Option Text → Cause → SerializedError

  pub data Cause : Type 0 where
    no_cause : Cause
    caused_by : SerializedError → Cause

abbrev pub name_of : SerializedError → Text
name_of (serialized name message stack code cause) = name

abbrev pub message_of : SerializedError → Text
message_of (serialized name message stack code cause) = message

abbrev pub stack_of : SerializedError → Option Text
stack_of (serialized name message stack code cause) = stack

abbrev pub code_of : SerializedError → Option Text
code_of (serialized name message stack code cause) = code

abbrev pub newline : ℕ
newline = 10

abbrev pub truncation_mark : Text
truncation_mark = codes "    ... stack truncated"

unfoldable pub truncate_stack : Text → Text
truncate_stack stack =
    let lines = split newline stack in
    if leb (length lines) error_stack_max_lines
    then stack
    else join (newline ∷ []) (take error_stack_max_lines lines ++ truncation_mark ∷ [])

unfoldable pub read_property : Object → Text → Value
read_property o key = elim (o.get key) [ normal v ↦ v | throw v ↦ undefined ]

abbrev code_text : Value → Option Text
code_text (str s) = some s
code_text (num n) = some (number_text n)
code_text _ = none

read_code : Object → Option Text
read_code o = code_text (read_property o (codes "code"))

unfoldable pub safe_stringify : Host → Value → Text
safe_stringify host undefined = codes "undefined"
safe_stringify host (opaque s) = s
safe_stringify host value = elim (host.stringify value) [
  | normal s ↦ s
  | throw v ↦ codes "[unserializable value]"
]

-- `typeof name === 'string' && name.length > 0 ? name : 'Error'`
name_text : Value → Text
name_text (str []) = codes "Error"
name_text (str (c ∷ s)) = c ∷ s
name_text _ = codes "Error"

-- `typeof message === 'string' ? message : safeStringify(fallback)`
message_text : Host → Value → Value → Text
message_text host (str s) fallback = s
message_text host _ fallback = safe_stringify host fallback

stack_text : Value → Option Text
stack_text (str []) = none
stack_text (str (c ∷ s)) = some (truncate_stack (c ∷ s))
stack_text _ = none

abbrev cause_at : (Value → Cause) → Value → Cause
cause_at causes undefined = no_cause
cause_at causes value = causes value

-- `causes` is the recursive call, or no cause where the depth is used up.
serialize_object : Host → (Value → Cause) → Value → Object → SerializedError
unfolding read_code name_text message_text stack_text
serialize_object host causes value o =
    let message = read_property o (codes "message") in
    let name = name_text (read_property o (codes "name")) in
    if o.is_error
    then serialized name (message_text host message message)
        (stack_text (read_property o (codes "stack"))) (read_code o)
        (cause_at causes (read_property o (codes "cause")))
    else serialized name (message_text host message value) none (read_code o) no_cause

bare : Text → SerializedError
bare message = serialized (codes "Error") message none none no_cause

serialize_with : Host → (Value → Cause) → Value → SerializedError
unfolding serialize_object bare
serialize_with host causes (object a) = serialize_object host causes (object a) (host.objects a)
serialize_with host causes (kit e) = serialize_object host causes (kit e) (kit_object host e)
serialize_with host causes (str s) = bare s
serialize_with host causes null = bare (codes "null")
serialize_with host causes value = bare (safe_stringify host value)

-- `left` is how often the cause may still be followed: `ERROR_CAUSE_MAX_DEPTH - depth`.
serialize_at : Host → ℕ → Value → SerializedError
unfolding serialize_with
serialize_at host zero value = serialize_with host (λ c. no_cause) value
serialize_at host (suc left) value =
    serialize_with host (λ c. caused_by (serialize_at host left c)) value

unfoldable pub serialize_error : Host → Value → ℕ → SerializedError
unfolding serialize_at
serialize_error host value depth = serialize_at host (error_cause_max_depth - depth) value

-- `reason.slice(0, maxChars - 3)`; a negative end counts from the end of the text.
unfoldable pub slice_to_ellipsis : Text → ℕ → Text
slice_to_ellipsis s max_chars =
    if ltb max_chars 3 then take (length s - (3 - max_chars)) s else take (max_chars - 3) s

reason_of : Text → Text → Text
reason_of name [] = name
reason_of name (c ∷ message) = name ++ (codes ": " ++ (c ∷ message))

unfoldable pub format_error_reason : Host → Value → ℕ → Text
unfolding reason_of slice_to_ellipsis
format_error_reason host value max_chars =
    let e = serialize_error host value 0 in
    let reason = reason_of (name_of e) (message_of e) in
    if ltb max_chars (length reason)
    then slice_to_ellipsis reason max_chars ++ codes "..."
    else reason
