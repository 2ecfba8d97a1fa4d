-- ===== src/Errors/Laws.antt =====
-- What the classification says of the program's own errors.
use queue_worker_kit.Prelude.{
  ℕ, ◌≡◌, refl, sym, ◌∙◌, subst, Text, codes, if◌then◌else◌, text_eq, Bool, true, false, Bool-cases,
  inl, inr, none, some,
}
use queue_worker_kit.Values.{
  Value, undefined, null, bool, num, str, opaque, object, KitError, plain, non_retryable,
  payload_validation, unknown_job, transient, job_timeout, job_cancelled, http, config, kit, normal,
  normal-injective, Completion, Host, object_of, kit_object, kit_name, kit_non_retryable,
}
use queue_worker_kit.Errors.{
  ErrorClassification, classify_error, is_non_retryable_error, named_non_retryable,
  non_retryable_class, retryable_class,
}

-- An error that the program builds is classified as its class says, whatever message, cause and
-- stack it has: never by an exception.
pub classify_error-kit :
    (host : Host) (e : KitError)
    → classify_error host (kit e)
      ≡ normal (if kit_non_retryable e then non_retryable_class else retryable_class)
unfolding classify_error is_non_retryable_error object_of kit_object kit_non_retryable kit_name
    text_eq
classify_error-kit host (plain m) = refl
classify_error-kit host (non_retryable m c) = refl
classify_error-kit host (payload_validation m i) = refl
classify_error-kit host (unknown_job n) = refl
classify_error-kit host (transient m c) = refl
classify_error-kit host (job_timeout ms) = refl
classify_error-kit host (job_cancelled r) = refl
classify_error-kit host (http s c m d) = refl
classify_error-kit host (config i) = refl

-- No object's `name` getter throws.
abbrev pub NamesReadable : Host → Type 0
NamesReadable host = (a : ℕ) → (x : Value) × ((host.objects a).get (codes "name") ≡ normal x)

-- Classification then gives an answer for every value.
pub classify_error-total :
    (host : Host)
    → NamesReadable host
    → (v : Value) → (c : ErrorClassification) × (classify_error host v ≡ normal c)
unfolding classify_error is_non_retryable_error object_of
classify_error-total host readable undefined = (retryable_class, refl)
classify_error-total host readable null = (retryable_class, refl)
classify_error-total host readable (bool b) = (retryable_class, refl)
classify_error-total host readable (num n) = (retryable_class, refl)
classify_error-total host readable (str s) = (retryable_class, refl)
classify_error-total host readable (opaque s) = (retryable_class, refl)
classify_error-total host readable (kit e) = (_, classify_error-kit host e)
classify_error-total host readable (object a) =
    let (x, named) = readable a in
    elim (Bool-cases (host.objects a).is_unrecoverable) [
      | inl u ↦ (non_retryable_class, rw u refl)
      | inr nu ↦ elim (Bool-cases (host.objects a).is_error) [
        | inl ie ↦ (
          (if named_non_retryable x then non_retryable_class else retryable_class),
          rw (nu, ie, named) refl,
        )
        | inr ne ↦ (retryable_class, rw (nu, ne) refl)
      ]
    ]

-- Whether a value is an instance of BullMQ's `UnrecoverableError`.
abbrev pub is_unrecoverable : Host → Value → Bool
is_unrecoverable host v = elim (object_of host v) [ none ↦ false | some o ↦ o.is_unrecoverable ]

-- What a value answers for its `name`.
abbrev pub name_of : Host → Value → Completion Value
name_of host v = elim (object_of host v) [ none ↦ normal undefined | some o ↦ o.get (codes "name") ]

-- No object of another class goes by one of the names of the errors that are not to be retried.
abbrev pub OwnNames : Host → Type 0
OwnNames host =
    (a : ℕ) (x : Value)
    → (host.objects a).is_unrecoverable ≡ false
    → (host.objects a).get (codes "name") ≡ normal x
    → named_non_retryable x ≡ false

kit_name-own : (e : KitError) → text_eq (kit_name e) (codes "UnrecoverableError") ≡ false
unfolding kit_name text_eq
kit_name-own (plain m) = refl
kit_name-own (non_retryable m c) = refl
kit_name-own (payload_validation m i) = refl
kit_name-own (unknown_job n) = refl
kit_name-own (transient m c) = refl
kit_name-own (job_timeout ms) = refl
kit_name-own (job_cancelled r) = refl
kit_name-own (http s c m d) = refl
kit_name-own (config i) = refl

name_of-kit : (host : Host) (e : KitError) → name_of host (kit e) ≡ normal (str (kit_name e))
unfolding object_of kit_object text_eq
name_of-kit host e = refl

str-injective : {s t : Text} → str s ≡ str t → s ≡ t
str-injective h = cc

other_name :
    (name : Text)
    → text_eq name (codes "UnrecoverableError") ≡ false
    → normal (str name) ≡ normal (str (codes "UnrecoverableError"))
    → ⊥
unfolding text_eq
other_name name differs same =
    let equal =
      subst (λ n. text_eq n (codes "UnrecoverableError") ≡ false)
        (str-injective (normal-injective same)) differs in
    cc

retryable_kit :
    (host : Host) (e : KitError)
    → name_of host (kit e) ≡ normal (str (codes "UnrecoverableError"))
    → ⊥
retryable_kit host e named =
    other_name (kit_name e) (kit_name-own e) (sym (name_of-kit host e) ∙ named)

module _ (host : Host) (readable : NamesReadable host) (own : OwnNames host) where
  -- Classification then agrees with the class that BullMQ looks at.
  pub non_retryable-is_unrecoverable :
      (v : Value)
      → classify_error host v ≡ normal non_retryable_class
      → is_unrecoverable host v ≡ true
  unfolding classify_error is_non_retryable_error object_of kit_object
  non_retryable-is_unrecoverable undefined h = cc
  non_retryable-is_unrecoverable null h = cc
  non_retryable-is_unrecoverable (bool b) h = cc
  non_retryable-is_unrecoverable (num n) h = cc
  non_retryable-is_unrecoverable (str s) h = cc
  non_retryable-is_unrecoverable (opaque s) h = cc
  non_retryable-is_unrecoverable (kit e) h = elim (Bool-cases (kit_non_retryable e)) [
    | inl y ↦ y
    | inr n ↦ let class = rw n at (classify_error-kit host e) in cc
  ]
  non_retryable-is_unrecoverable (object a) h =
      let (x, named) = readable a in
      elim (Bool-cases (host.objects a).is_unrecoverable) [
        | inl u ↦ u
        | inr nu ↦ elim (Bool-cases (host.objects a).is_error) [
          | inl ie ↦ cc (rw (nu, ie, named, own a x nu named) at h)
          | inr ne ↦ cc (rw (nu, ne) at h)
        ]
      ]

  pub retryable-is_unrecoverable :
      (v : Value)
      → classify_error host v ≡ normal retryable_class
      → (is_unrecoverable host v ≡ false)
        × (name_of host v ≡ normal (str (codes "UnrecoverableError")) → ⊥)
  unfolding classify_error is_non_retryable_error object_of text_eq named_non_retryable kit_object
  retryable-is_unrecoverable undefined h = (refl, λ n. cc)
  retryable-is_unrecoverable null h = (refl, λ n. cc)
  retryable-is_unrecoverable (bool b) h = (refl, λ n. cc)
  retryable-is_unrecoverable (num n) h = (refl, λ n. cc)
  retryable-is_unrecoverable (str s) h = (refl, λ n. cc)
  retryable-is_unrecoverable (opaque s) h = (refl, λ n. cc)
  retryable-is_unrecoverable (kit e) h = elim (Bool-cases (kit_non_retryable e)) [
    | inl y ↦ let class = rw y at (classify_error-kit host e) in cc
    | inr n ↦ (n, retryable_kit host e)
  ]
  retryable-is_unrecoverable (object a) h = elim (Bool-cases (host.objects a).is_unrecoverable) [
    | inl u ↦ cc (rw u at h)
    | inr nu ↦ (nu, λ named. cc (own a (str (codes "UnrecoverableError")) nu named))
  ]
