-- ===== src/Api/Jobs/Schemas/Fields.antt =====
-- What zod passes on of a body: the values under the keys of its schema.
use queue_worker_kit.Prelude.{
  ◌≡◌, refl, sym, ◌∙◌, subst, arith, Text, text_eq, text_eq_iff, all, ◌++◌, ◌&&◌, not, [], ◌∷◌,
  Bool, true, false, Bool-cases, &&-true, Option, Option-cases, none, some, inl, inr,
}
use queue_worker_kit.Json.{Json, Fields, field, get_field, optional_field}
use queue_worker_kit.Jobs.Schemas.{Key, Shape, Formats, has_key, fits, all_fit, picked}
use queue_worker_kit.Api.Jobs.{is_option_key, payload_of}
use queue_worker_kit.Api.Jobs.Laws.{get_field-payload}

get_field-optional :
    (key name : Text) (v : Option Json) (fs : Fields)
    → text_eq key name ≡ false
    → get_field key (optional_field name v fs) ≡ get_field key fs
unfolding get_field
get_field-optional key name none fs h = refl
get_field-optional key name (some v) fs h = rw h refl

get_field-first :
    (key name : Text) (v : Json) (fs : Fields)
    → text_eq key name ≡ true
    → get_field key (field name v fs) ≡ some v
unfolding get_field
get_field-first key name v fs h = rw h refl

picked-absent :
    (key : Text) (shape : Shape) (fs : Fields)
    → get_field key fs ≡ none
    → get_field key (picked shape fs) ≡ none
unfolding get_field
picked-absent key [] fs h = refl
picked-absent key (k ∷ shape) fs h = elim (Bool-cases (text_eq key k.name)) [
  | inl y ↦
      let absent : get_field k.name fs ≡ none =
        subst (λ (t : Text). get_field t fs ≡ none) ((text_eq_iff key k.name).0 y) h in
      rw absent (picked-absent key shape fs h)
  | inr n ↦ get_field-optional key k.name (get_field k.name fs) _ n ∙ picked-absent key shape fs h
]

-- zod passes on each value under a key of the schema.
pub get_field-picked :
    (key : Text) (shape : Shape) (fs : Fields)
    → has_key key shape ≡ true
    → get_field key (picked shape fs) ≡ get_field key fs
get_field-picked key [] fs h = cc
get_field-picked key (k ∷ shape) fs h = elim (Bool-cases (text_eq key k.name)) [
  | inr n ↦
      get_field-optional key k.name (get_field k.name fs) _ n
      ∙ get_field-picked key shape fs (rw n at h)
  | inl y ↦ elim (Option-cases (get_field key fs)) [
    | inl absent ↦ picked-absent key (k ∷ shape) fs absent ∙ sym absent
    | inr (v, present) ↦
        let here : get_field k.name fs ≡ some v =
          subst (λ (t : Text). get_field t fs ≡ some v) ((text_eq_iff key k.name).0 y) present in
        rw (here, present) (get_field-first key k.name v (picked shape fs) y)
  ]
]

-- A key that is left in the payload of a body that zod has passed.
abbrev pub stays : Shape → Key → Bool
stays shape k = has_key k.name shape && not (is_option_key k.name)

pub all_fit-payload :
    (formats : Formats) (full shape : Shape) (fs : Fields)
    → all (stays full) shape ≡ true
    → all_fit formats shape fs ≡ true
    → all_fit formats shape (payload_of (picked full fs)) ≡ true
all_fit-payload formats full [] fs stay h = refl
all_fit-payload formats full (k ∷ shape) fs stay h =
    let (stays_here, stay_later) = &&-true (stays full k) _ stay in
    let (present, not_option) = &&-true (has_key k.name full) _ stays_here in
    let (here, later) = &&-true (fits formats k (get_field k.name fs)) _ h in
    let plain : is_option_key k.name ≡ false = ground arith in
    rw
      (
        get_field-payload k.name (picked full fs) plain,
        get_field-picked k.name full fs present,
        here,
      )
      (all_fit-payload formats full shape fs stay_later later)

pub all-append :
    (formats : Formats) (shape more : Shape) (fs : Fields)
    → all_fit formats (shape ++ more) fs ≡ true
    → (all_fit formats shape fs ≡ true) × (all_fit formats more fs ≡ true)
all-append formats [] more fs h = (refl, h)
all-append formats (k ∷ shape) more fs h =
    let (here, later) = &&-true (fits formats k (get_field k.name fs)) _ h in
    let (first, second) = all-append formats shape more fs later in (rw here first, second)
