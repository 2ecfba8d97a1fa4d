-- ===== src/Json.antt =====
-- JSON values: what travels through Redis as `job.data`.
use queue_worker_kit.Prelude.{Text, text_eq, Bool, Option, none, some, if◌then◌else◌}
use queue_worker_kit.Values.{Number}

mutual
  pub data Json : Type 0 where
    null : Json
    bool : Bool → Json
    num : Number → Json
    str : Text → Json
    arr : Items → Json
    obj : Fields → Json

  pub data Items : Type 0 where
    nil : Items
    cons : Json → Items → Items

  pub data Fields : Type 0 where
    end : Fields
    field : Text → Json → Fields → Fields

unfoldable pub get_field : Text → Fields → Option Json
get_field key end = none
get_field key (field k v fs) = if text_eq key k then some v else get_field key fs

-- `value?.key` on a JSON value: absent where there is no such property.
unfoldable pub property : Text → Json → Option Json
unfolding get_field
property key (obj fs) = get_field key fs
property key _ = none

-- A field that is written only where its value is present.
abbrev pub optional_field : Text → Option Json → Fields → Fields
optional_field key none fs = fs
optional_field key (some v) fs = field key v fs
