-- ===== src/Tests/Requests.antt =====
-- The theorems on errors, sleeps and HTTP requests at concrete inputs.
use queue_worker_kit.Prelude.{
  ◌≤◌, ◌-◌, ◌≡◌, ◌≢◌, some-eq-some, subst, refl, arith, Text, codes, text_eq, true, false, none,
  some, is_some, if◌then◌else◌,
}
use queue_worker_kit.Config.Defaults.{error_cause_max_depth}
use queue_worker_kit.Values.{
  undefined, object, normal, Host, Object, str, object_of, normal-injective,
}
use queue_worker_kit.Json.{null}
use queue_worker_kit.Utils.SerializeError.{serialize_error, read_property}
use queue_worker_kit.Utils.SerializeError.Laws.{nesting, nesting-serialize_error}
use queue_worker_kit.Utils.SerializeError.Exposure.{
  HoldsErrors, SameProjections, serialize_error-eq_of_SameProjections,
}
use queue_worker_kit.Utils.Sleep.{Signal}
use queue_worker_kit.Api.Errors.{
  build_error_response, foreign_response, read, status_of, unexpected,
}
use queue_worker_kit.Api.Errors.Laws.{Hides, build_error_response-Hides}
use queue_worker_kit.Api.Jobs.{JobSnapshot, JobStatusResponse, QueueReads}
use queue_worker_kit.Tests.Fixtures.{boom, test_host}

nesting-serialize_error_example :
    nesting (serialize_error test_host (object 3) 1) ≤ error_cause_max_depth - 1
nesting-serialize_error_example = nesting-serialize_error test_host (object 3) 1

abbrev stack : Text
stack = codes "Error: boom"

abbrev live : Signal
live = record { aborted = false; reason = undefined }

-- An object with one more property, which no serialised error shows.
abbrev secret : Object
secret = record boom {
  get = λ key.
      if text_eq key (codes "command") then normal (str (codes "AUTH hunter2")) else boom.get key;
}

abbrev secret_host : Host
secret_host = record test_host { objects = λ a. secret }

test_host-HoldsErrors : HoldsErrors test_host
unfolding read_property text_eq
test_host-HoldsErrors = record {
  errors = λ a. refl;
  messages = λ a. (codes "boom", refl);
  causes = λ a. tt;
}

same_projections : SameProjections test_host secret_host
unfolding read_property text_eq
same_projections = record {
  stacks = λ e. refl;
  objects = λ a. record {
    is_error = refl;
    name = refl;
    message = refl;
    stack = refl;
    code = refl;
    cause = refl;
  };
}

serialize_error-eq_of_SameProjections_example :
    serialize_error test_host (object 0) 0 ≡ serialize_error secret_host (object 0) 0
serialize_error-eq_of_SameProjections_example =
    serialize_error-eq_of_SameProjections test_host secret_host (object 0) 0 test_host-HoldsErrors
      same_projections tt

build_error_response-Hides_example : Hides (unexpected test_host false (object 0))
unfolding build_error_response foreign_response read status_of object_of text_eq
build_error_response-Hides_example =
    build_error_response-Hides test_host (object 0) (unexpected test_host false (object 0)) refl
      refl refl

abbrev done : JobSnapshot
done = record {
  id = some (codes "7");
  name = codes "email.send";
  progress = null;
  attempts_made = 1;
  stored = null;
  timestamp = 5;
  processed_on = some 6;
  finished_on = some 8;
  failed_reason = none;
  return_value = null;
}

-- The first read is older than the state.
abbrev reads : QueueReads
reads = record {
  get_job = normal (some (record done { finished_on = none }));
  get_state = normal (codes "completed");
  get_job_again = normal (some done);
}

abbrev answer : JobStatusResponse
answer = record {
  id = codes "7";
  name = codes "email.send";
  queue = codes "email";
  state = codes "completed";
  progress = null;
  attempts_made = 1;
  correlation_id = none;
  created_at = some 5;
  processed_at = some 6;
  finished_at = some 8;
  failed_reason = none;
  result = null;
}

abbrev IsWritten : QueueReads → Type 0
IsWritten r =
    ((again : JobSnapshot)
      → r.get_job_again ≡ normal (some again)
      → is_some again.finished_on ≡ true)
    × (r.get_job_again ≢ normal none)

reads-IsWritten : IsWritten reads
reads-IsWritten = (
  λ again h.
      subst (λ (j : JobSnapshot). is_some j.finished_on ≡ true) (some-eq-some (normal-injective h))
        refl,
  λ h. ground (arith, normal-injective h),
)

reads-IsWritten' : (r : QueueReads) → some reads ≡ some r → IsWritten r
reads-IsWritten' r e = subst IsWritten (some-eq-some e) reads-IsWritten
