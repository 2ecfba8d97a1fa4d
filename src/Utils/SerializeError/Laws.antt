-- ===== src/Utils/SerializeError/Laws.antt =====
-- The bounds on a serialised error.
use queue_worker_kit.Prelude.{
  ℕ, zero, suc, ◌-◌, ◌≤◌, ◌<◌, ◌≡◌, refl, Text, codes, split, join, length, take, leb, ◌++◌, List,
  [], ◌∷◌, if◌then◌else◌, arith, Bool-cases, inl, inr, All, All-take, All-append, Lacks,
  split-All-Lacks, split-join, length-take, length-append,
}
use queue_worker_kit.Values.{Value, undefined, object, kit, Host, Object, kit_object}
use queue_worker_kit.Config.Defaults.{error_stack_max_lines, error_cause_max_depth}
use queue_worker_kit.Utils.SerializeError.{
  SerializedError, serialized, Cause, no_cause, caused_by, newline, truncation_mark, truncate_stack,
  serialize_error, serialize_at, serialize_with, serialize_object, cause_at, bare, read_property,
  format_error_reason, slice_to_ellipsis, name_of, message_of, reason_of,
}

-- How many causes hang one under another.
mutual
  pub nesting : SerializedError → ℕ
  nesting (serialized name message stack code cause) = nesting_cause cause

  pub nesting_cause : Cause → ℕ
  nesting_cause no_cause = 0
  nesting_cause (caused_by e) = suc (nesting e)

nesting-cause_at :
    (n : ℕ) (causes : Value → Cause) (c : Value)
    → ((c : Value) → nesting_cause (causes c) ≤ n)
    → nesting_cause (cause_at causes c) ≤ n
unfolding nesting
nesting-cause_at n causes undefined h = omega arith
nesting-cause_at n causes c h = h c

nesting-serialize_object :
    (host : Host) (n : ℕ) (causes : Value → Cause) (value : Value) (o : Object)
    → ((c : Value) → nesting_cause (causes c) ≤ n)
    → nesting (serialize_object host causes value o) ≤ n
unfolding serialize_object nesting
nesting-serialize_object host n causes value o h = elim (Bool-cases o.is_error) [
  | inl e ↦ simp e (nesting-cause_at n causes (read_property o (codes "cause")) h)
  | inr e ↦ simp e (omega arith)
]

nesting-serialize_with :
    (host : Host) (n : ℕ) (causes : Value → Cause) (value : Value)
    → ((c : Value) → nesting_cause (causes c) ≤ n)
    → nesting (serialize_with host causes value) ≤ n
unfolding serialize_with bare nesting
nesting-serialize_with host n causes (object a) h =
    nesting-serialize_object host n causes (object a) (host.objects a) h
nesting-serialize_with host n causes (kit e) h =
    nesting-serialize_object host n causes (kit e) (kit_object host e) h
nesting-serialize_with host n causes _ h = omega arith

nesting-serialize_at :
    (host : Host) (left : ℕ) (value : Value) → nesting (serialize_at host left value) ≤ left
unfolding serialize_at nesting
nesting-serialize_at host zero value =
    nesting-serialize_with host 0 (λ c. no_cause) value (λ c. omega arith)
nesting-serialize_at host (suc left) value =
    nesting-serialize_with host (suc left) (λ c. caused_by (serialize_at host left c)) value
      (λ c. omega (arith, nesting-serialize_at host left c))

-- However the objects of the host name one another, circularly too, at most
-- `ERROR_CAUSE_MAX_DEPTH - depth` causes are followed.
pub nesting-serialize_error :
    (host : Host) (value : Value) (depth : ℕ)
    → nesting (serialize_error host value depth) ≤ error_cause_max_depth - depth
unfolding serialize_error
nesting-serialize_error host value depth =
    nesting-serialize_at host (error_cause_max_depth - depth) value

mark-Lacks-newline : Lacks newline truncation_mark
mark-Lacks-newline = ground arith

-- The lines of a truncated stack: the first twelve, and the mark.
abbrev pub truncated_lines : List Text → List Text
truncated_lines lines =
    if leb (length lines) error_stack_max_lines
    then lines
    else take error_stack_max_lines lines ++ truncation_mark ∷ []

split-join-take :
    (lines : List Text)
    → All (Lacks newline) lines
    → 12 < length lines
    → split newline (join (newline ∷ []) (take 12 lines ++ truncation_mark ∷ []))
      ≡ take 12 lines ++ truncation_mark ∷ []
split-join-take [] h long = absurd (omega arith)
split-join-take (x ∷ r) h long = split-join newline x (take 11 r ++ truncation_mark ∷ []) (
  h.0,
  All-append (Lacks newline) (take 11 r) (truncation_mark ∷ []) (All-take (Lacks newline) 11 r h.1)
      (mark-Lacks-newline, tt),
)

-- A stack of at most twelve lines is kept whole; of a longer one the first twelve lines are kept,
-- in order, and one line that says so is added.
pub split-truncate_stack :
    (stack : Text)
    → (split newline (truncate_stack stack) ≡ truncated_lines (split newline stack))
      × (length (split newline (truncate_stack stack)) ≤ suc error_stack_max_lines)
      × (length (split newline stack) ≤ error_stack_max_lines → truncate_stack stack ≡ stack)
unfolding truncate_stack
split-truncate_stack stack = elim (Bool-cases (leb (length (split newline stack)) 12)) [
  | inl short ↦ rw short (refl, ground arith, λ h. refl)
  | inr long ↦
      let e =
        split-join-take (split newline stack) (split-All-Lacks newline stack) (ground arith) in
      rw (long, e)
        (
          refl,
          omega (
            arith,
            length-append (take 12 (split newline stack)) (truncation_mark ∷ []),
            length-take 12 (split newline stack),
          ),
          λ h. absurd (ground arith),
        )
]

length-slice_to_ellipsis :
    (s : Text) (n : ℕ) → 3 ≤ n → length (slice_to_ellipsis s n ++ codes "...") ≤ n
unfolding slice_to_ellipsis
length-slice_to_ellipsis s n h =
    ground (arith, length-append (take (n - 3) s) (codes "..."), length-take (n - 3) s)

-- With room for the ellipsis, a one-line reason has at most `max_chars` code units.
pub length-format_error_reason :
    (host : Host) (value : Value) (max_chars : ℕ)
    → 3 ≤ max_chars
    → length (format_error_reason host value max_chars) ≤ max_chars
unfolding format_error_reason
length-format_error_reason host value max_chars h = ground (
  arith,
  length-slice_to_ellipsis
      (reason_of (name_of (serialize_error host value 0))
        (message_of (serialize_error host value 0)))
      max_chars,
)
