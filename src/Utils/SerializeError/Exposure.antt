-- ===== src/Utils/SerializeError/Exposure.antt =====
-- What a serialised error can show: its name, message, stack, code and cause, and nothing else.
use queue_worker_kit.Prelude.{ℕ, zero, suc, ◌-◌, ◌≡◌, refl, ap, Text, codes, text_eq, true, arith}
use queue_worker_kit.Values.{
  Value, undefined, null, bool, num, str, object, kit, KitError, non_retryable, transient, Host,
  Object, kit_object, kit_cause,
}
use queue_worker_kit.Config.Defaults.{error_cause_max_depth}
use queue_worker_kit.Utils.SerializeError.{
  Cause, no_cause, caused_by, serialize_error, serialize_at, serialize_with, serialize_object,
  cause_at, safe_stringify, read_property,
}

-- A value whose text is not left to `JSON.stringify`, and so with the causes of the program's own
-- errors in it.
abbrev pub IsReported : Value → Type 0
IsReported (bool b) = ⊥
IsReported (num n) = ⊥
IsReported (kit (non_retryable m c)) = IsReported c
IsReported (kit (transient m c)) = IsReported c
IsReported _ = Unit

-- Every object is an `Error` with a text for its message, and with such a value as its cause.
pub record HoldsErrors (host : Host) : Type 0 where
  pub errors : (a : ℕ) → (host.objects a).is_error ≡ true
  pub messages : (a : ℕ) → (s : Text) × (read_property (host.objects a) (codes "message") ≡ str s)
  pub causes : (a : ℕ) → IsReported (read_property (host.objects a) (codes "cause"))

-- Two objects with the same five properties, whatever their other properties are.
pub record SameProjection (o p : Object) : Type 0 where
  pub is_error : o.is_error ≡ p.is_error
  pub name : read_property o (codes "name") ≡ read_property p (codes "name")
  pub message : read_property o (codes "message") ≡ read_property p (codes "message")
  pub stack : read_property o (codes "stack") ≡ read_property p (codes "stack")
  pub code : read_property o (codes "code") ≡ read_property p (codes "code")
  pub cause : read_property o (codes "cause") ≡ read_property p (codes "cause")

pub record SameProjections (h k : Host) : Type 0 where
  pub stacks : (e : KitError) → h.stack_of e ≡ k.stack_of e
  pub objects : (a : ℕ) → SameProjection (h.objects a) (k.objects a)

cause_at_eq :
    (f g : Value → Cause) (c : Value)
    → IsReported c
    → ((c : Value) → IsReported c → f c ≡ g c)
    → cause_at f c ≡ cause_at g c
cause_at_eq f g undefined r h = refl
cause_at_eq f g null r h = h null r
cause_at_eq f g (bool b) r h = absurd r
cause_at_eq f g c r h = h c r

module _ (h k : Host) (holds : HoldsErrors h) (same : SameProjections h k) (f g : Value → Cause)
    (agree : (c : Value) → IsReported c → f c ≡ g c) where
  serialize_object_eq :
      (a : ℕ)
      → serialize_object h f (object a) (h.objects a)
        ≡ serialize_object k g (object a) (k.objects a)
  unfolding serialize_object
  serialize_object_eq a = ground (
    arith,
    holds.errors a,
    holds.messages a,
    (same.objects a).is_error,
    (same.objects a).name,
    (same.objects a).message,
    (same.objects a).stack,
    (same.objects a).code,
    (same.objects a).cause,
    cause_at_eq f g (read_property (h.objects a) (codes "cause")) (holds.causes a) agree,
  )

  serialize_kit_eq :
      (e : KitError)
      → IsReported (kit e)
      → serialize_object h f (kit e) (kit_object h e)
        ≡ serialize_object k g (kit e) (kit_object k e)
  unfolding serialize_object kit_object read_property kit_cause text_eq
  serialize_kit_eq (non_retryable m c) r =
      ground (arith, same.stacks (non_retryable m c), cause_at_eq f g c r agree)
  serialize_kit_eq (transient m c) r =
      ground (arith, same.stacks (transient m c), cause_at_eq f g c r agree)
  serialize_kit_eq e r = ground (arith, same.stacks e)

  serialize_with_eq : (v : Value) → IsReported v → serialize_with h f v ≡ serialize_with k g v
  unfolding serialize_with safe_stringify
  serialize_with_eq (object a) r = serialize_object_eq a
  serialize_with_eq (kit e) r = serialize_kit_eq e r
  serialize_with_eq (bool b) r = absurd r
  serialize_with_eq (num n) r = absurd r
  serialize_with_eq v r = refl

serialize_at_eq :
    (h k : Host)
    → HoldsErrors h
    → SameProjections h k
    → (left : ℕ) (v : Value) → IsReported v
    → serialize_at h left v ≡ serialize_at k left v
unfolding serialize_at
serialize_at_eq h k holds same zero v r =
    serialize_with_eq h k holds same (λ c. no_cause) (λ c. no_cause) (λ c _. refl) v r
serialize_at_eq h k holds same (suc left) v r =
    serialize_with_eq h k holds same (λ c. caused_by (serialize_at h left c))
      (λ c. caused_by (serialize_at k left c))
      (λ c q. ap caused_by (serialize_at_eq h k holds same left c q)) v r

-- For errors with a text as message, the serialised form is decided by `name`, `message`, `stack`,
-- `code` and `cause` along the chain: any other property, such as the `command` of a Redis
-- error with the arguments of AUTH, can be changed at will, and the result stays the same.
pub serialize_error-eq_of_SameProjections :
    (h k : Host) (v : Value) (depth : ℕ)
    → HoldsErrors h
    → SameProjections h k
    → IsReported v
    → serialize_error h v depth ≡ serialize_error k v depth
unfolding serialize_error
serialize_error-eq_of_SameProjections h k v depth holds same r =
    serialize_at_eq h k holds same (error_cause_max_depth - depth) v r
