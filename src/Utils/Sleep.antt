-- ===== src/Utils/Sleep.antt =====
-- src/utils/sleep.ts: the abortable `setTimeout`, as the state of one call and the two callbacks
-- that it registers.
pub mod Laws
use queue_worker_kit.Prelude.{
  Text, codes, List, [], ◌∷◌, Bool, true, false, Option, none, some, if◌then◌else◌,
}
use queue_worker_kit.Values.{
  Value, str, kit, job_cancelled, Completion, normal, throw, Object, Host, object_of,
}

pub record Signal : Type 0 where
  pub aborted : Bool
  pub reason : Value

abbrev pub is_error_object : Option Object → Bool
is_error_object none = false
is_error_object (some o) = o.is_error

-- `value instanceof Error`
unfoldable pub is_error : Host → Value → Bool
is_error host v = is_error_object (object_of host v)

-- `typeof reason === 'string' ? reason : fallback`
abbrev pub reason_text : Value → Text → Text
reason_text (str s) fallback = s
reason_text _ fallback = fallback

unfoldable pub abort_reason : Host → Value → Value
abort_reason host reason =
    if is_error host reason
    then reason
    else kit (job_cancelled (reason_text reason (codes "aborted")))

unfoldable pub throw_if_aborted : Host → Signal → Completion (Unit {0})
unfolding abort_reason
throw_if_aborted host signal =
    if signal.aborted then throw (abort_reason host signal.reason) else normal tt

-- One call: what its promise has settled to, and which of its two callbacks are registered.
pub record Sleep : Type 0 where
  pub settled : Option (Completion (Unit {0}))
  pub timer : Bool
  pub listener : Bool

unfoldable pub start : Host → Option Signal → Sleep
unfolding abort_reason
start host none = record { settled = none; timer = true; listener = false }
start host (some signal) =
    if signal.aborted
    then record {
      settled = some (throw (abort_reason host signal.reason));
      timer = false;
      listener = false;
    }
    else record { settled = none; timer = true; listener = true }

pub data Wake : Type 0 where
  timer_fires : Wake
  abort : Value → Wake

-- The first settlement of a promise is final.
abbrev settle :
    Option (Completion (Unit {0})) → Completion (Unit {0}) → Option (Completion (Unit {0}))
settle none c = some c
settle (some d) c = some d

-- A callback runs only while it is registered; `{ once: true }` takes the listener off.
unfoldable pub wake : Host → Sleep → Wake → Sleep
unfolding abort_reason
wake host s timer_fires =
    if s.timer
    then record { settled = settle s.settled (normal tt); timer = false; listener = false }
    else s
wake host s (abort reason) =
    if s.listener
    then record {
      settled = settle s.settled (throw (abort_reason host reason));
      timer = false;
      listener = false;
    }
    else s

unfoldable pub run : Host → Sleep → List Wake → Sleep
run host s [] = s
run host s (e ∷ es) = run host (wake host s e) es

-- How a call of `sleep(ms, signal)` ends, by the callbacks that run; no result while it waits.
unfoldable pub slept : Host → Signal → List Wake → Option (Completion (Unit {0}))
unfolding run start
slept host signal wakes = (run host (start host (some signal)) wakes).settled
