-- ===== src/Tests/Fixtures.antt =====
-- Concrete instances of the parameters: a host, a validator in the place of zod, and queues.
use mathlib.Core.Logic.{inl, inr}
use queue_worker_kit.Prelude.{
  ◌≡◌, ◌↔◌, refl, ap, sym, ◌∙◌, subst, arith, Text, codes, text_eq, leb, length, is_some, ◌&&◌, [],
  Bool, true, false, Bool-cases, Option, none, some, if◌then◌else◌,
}
use queue_worker_kit.Values.{
  Value, undefined, str, Completion, normal, normal-injective, Object, Host,
}
use queue_worker_kit.Errors.{named_non_retryable}
use queue_worker_kit.Errors.Laws.{NamesReadable, OwnNames}
use queue_worker_kit.Json.{Json, property, get_field}
use queue_worker_kit.Jobs.Types.{
  Parsed, success, success-injective, failure, Zod, ZodLaws, IsValidMeta, HasLength, KeyFits,
  JobMeta, JobEnvelope, meta_json, envelope_json,
}

-- Every object is an `Error` named so, with the message `boom`.
abbrev pub boom_get : Text → Completion Value
boom_get key = normal (
    if text_eq key (codes "name")
    then str (codes "Error")
    else if text_eq key (codes "message")
    then str (codes "boom")
    else undefined)

abbrev pub boom : Object
boom = record {
  is_error = true;
  is_unrecoverable = false;
  is_non_retryable = false;
  zod_issues = none;
  validation = none;
  get = boom_get;
}

abbrev pub test_host : Host
test_host = record {
  objects = λ a. boom;
  stack_of = λ e. str (codes "Error: boom");
  stringify = λ v. normal (codes "{}");
}

pub test_host-NamesReadable : NamesReadable test_host
unfolding text_eq
test_host-NamesReadable a = (str (codes "Error"), refl)

pub test_host-OwnNames : OwnNames test_host
unfolding text_eq named_non_retryable
test_host-OwnNames a x u named =
    subst (λ v. named_non_retryable v ≡ false) (normal-injective named) refl

abbrev in_range : Text → Bool
in_range s = leb 1 (length s) && leb (length s) 200

abbrev key_in_range : Option Text → Bool
key_in_range none = true
key_in_range (some key) = in_range key

abbrev not_empty : Text → Bool
not_empty s = leb 1 (length s)

abbrev is_valid : JobMeta → Bool
is_valid m =
    in_range m.correlation_id && (not_empty m.enqueued_at && key_in_range m.idempotency_key)

abbrev pub checked : {A : Type 0} → (A → Bool) → A → Parsed A
checked p a = if p a then success a else failure []

abbrev as_text : Option Json → Option Text
as_text (some (Json.str s)) = some s
as_text o = none

abbrev meta_of : Option Text → Option Text → Option Text → Parsed JobMeta
meta_of (some id) (some time) key =
    checked is_valid (record { correlation_id = id; enqueued_at = time; idempotency_key = key })
meta_of id time key = failure []

abbrev test_parse_meta : Option Json → Parsed JobMeta
test_parse_meta none = failure []
test_parse_meta (some j) =
    meta_of (as_text (property (codes "correlationId") j))
      (as_text (property (codes "enqueuedAt") j)) (as_text (property (codes "idempotencyKey") j))

abbrev envelope_from : Option Json → Parsed JobMeta → Parsed JobEnvelope
envelope_from (some payload) (success m) = success (record { payload = payload; meta = m })
envelope_from payload m = failure []

abbrev test_parse_envelope : Json → Parsed JobEnvelope
test_parse_envelope j =
    envelope_from (property (codes "payload") j) (test_parse_meta (property (codes "meta") j))

abbrev having : Text → Json → Parsed Json
having key = checked (λ j. is_some (property key j))

abbrev pub test_zod : Zod
test_zod = record {
  parse_envelope = test_parse_envelope;
  parse_meta = test_parse_meta;
  send_email_payload = having (codes "to");
  generate_report_payload = having (codes "reportId");
  cleanup_payload = having (codes "before");
  is_datetime = not_empty;
}

pub checked-success :
    {A : Type 0} (p : A → Bool) (a b : A) → checked p a ≡ success b → (p a ≡ true) × (a ≡ b)
checked-success p a b h = elim (Bool-cases (p a)) [
  | inl y ↦ (y, success-injective (rw y at h))
  | inr n ↦ cc (rw n at h)
]

in_range_iff : (s : Text) → (in_range s ≡ true) ↔ HasLength 1 200 s
in_range_iff s = ground arith

key_in_range_iff : (k : Option Text) → (key_in_range k ≡ true) ↔ KeyFits k
key_in_range_iff none = (λ h. tt, λ h. refl)
key_in_range_iff (some key) = in_range_iff key

both : {a b : Bool} → a && b ≡ true → (a ≡ true) × (b ≡ true)
both {a = true} h = (refl, h)
both {a = false} h = ground (arith, h)

both-true : {a b : Bool} → a ≡ true → b ≡ true → a && b ≡ true
both-true {a = true} h k = k
both-true {a = false} h k = h

is_valid_complete : (m : JobMeta) → IsValidMeta test_zod m → is_valid m ≡ true
is_valid_complete m v =
    both-true ((in_range_iff m.correlation_id).1 v.correlation_id)
      (both-true v.enqueued_at ((key_in_range_iff m.idempotency_key).1 v.idempotency_key))

is_valid_sound : (m : JobMeta) → is_valid m ≡ true → IsValidMeta test_zod m
is_valid_sound m h =
    let (id, others) = both h in
    let (time, key) = both others in
    record {
      correlation_id = (in_range_iff m.correlation_id).0 id;
      enqueued_at = time;
      idempotency_key = (key_in_range_iff m.idempotency_key).0 key;
    }

key-json :
    (id time : Text) (key : Option Text)
    → test_parse_meta (
        some
          (meta_json (record { correlation_id = id; enqueued_at = time; idempotency_key = key })))
      ≡ checked is_valid (record { correlation_id = id; enqueued_at = time; idempotency_key = key })
unfolding meta_json property get_field text_eq
key-json id time none = refl
key-json id time (some key) = refl

parse_meta-json : (m : JobMeta) → test_parse_meta (some (meta_json m)) ≡ checked is_valid m
parse_meta-json m = key-json m.correlation_id m.enqueued_at m.idempotency_key

checked_sound : (m n : JobMeta) → checked is_valid m ≡ success n → IsValidMeta test_zod n
checked_sound m n h =
    let (valid, same) = checked-success is_valid m n h in
    subst (λ (x : JobMeta). IsValidMeta test_zod x) same (is_valid_sound m valid)

meta_of_sound :
    (id time key : Option Text) (m : JobMeta)
    → meta_of id time key ≡ success m
    → IsValidMeta test_zod m
meta_of_sound none time key m h = cc
meta_of_sound (some id) none key m h = cc
meta_of_sound (some id) (some time) key m h =
    checked_sound (record { correlation_id = id; enqueued_at = time; idempotency_key = key }) m h

parse_meta_sound :
    (j : Option Json) (m : JobMeta) → test_parse_meta j ≡ success m → IsValidMeta test_zod m
parse_meta_sound none m h = cc
parse_meta_sound (some j) m h =
    meta_of_sound (as_text (property (codes "correlationId") j))
      (as_text (property (codes "enqueuedAt") j)) (as_text (property (codes "idempotencyKey") j)) m
      h

envelope_from-success :
    (payload : Option Json) (r : Parsed JobMeta) (e : JobEnvelope)
    → envelope_from payload r ≡ success e
    → r ≡ success e.meta
envelope_from-success none r e h = cc
envelope_from-success (some payload) (failure issues) e h = cc
envelope_from-success (some payload) (success m) e h =
    ap (λ (x : JobEnvelope). success x.meta) (success-injective h)

parse_envelope-json :
    (e : JobEnvelope)
    → test_parse_envelope (envelope_json e)
      ≡ envelope_from (some e.payload) (checked is_valid e.meta)
unfolding envelope_json property get_field text_eq
parse_envelope-json e =
    ap (λ (r : Parsed JobMeta). envelope_from (some e.payload) r) (parse_meta-json e.meta)

having_again : (key : Text) (j k : Json) → having key j ≡ success k → having key k ≡ success k
having_again key j k h =
    let (present, same) = checked-success (λ j. is_some (property key j)) j k h in
    subst (λ (x : Json). having key x ≡ success x) same (rw present)

pub test_zod-laws : ZodLaws test_zod
test_zod-laws = record {
  envelope_accepts = λ e v. parse_envelope-json e ∙ (rw (is_valid_complete e.meta v));
  envelope_sound = λ j e h. parse_meta_sound (property (codes "meta") j) e.meta (
      envelope_from-success (property (codes "payload") j)
        (test_parse_meta (property (codes "meta") j)) e h);
  envelope_of_json = λ e f h.
      let parsed =
        envelope_from-success (some e.payload) (checked is_valid e.meta) f
          (sym (parse_envelope-json e) ∙ h) in
      sym (checked-success is_valid e.meta f.meta parsed).1;
  meta_accepts = λ m v. parse_meta-json m ∙ (rw (is_valid_complete m v));
  send_email_again = λ j k h. having_again _ j k h;
  generate_report_again = λ j k h. having_again _ j k h;
  cleanup_again = λ j k h. having_again _ j k h;
}
