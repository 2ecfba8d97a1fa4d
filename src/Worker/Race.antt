-- ===== src/Worker/Race.antt =====
-- `raceWithAbort` and `abortError` of src/worker/processor.ts: the processor's promise against the
-- abort of the job's signal.
pub mod Laws
use queue_worker_kit.Prelude.{
  ℕ, Text, codes, List, [], ◌∷◌, Bool, true, false, Option, none, some, if◌then◌else◌,
}
use queue_worker_kit.Values.{
  Value, kit, job_timeout, job_cancelled, Completion, normal, throw, Host,
}
use queue_worker_kit.Json.{Json}
use queue_worker_kit.Utils.Sleep.{Signal, is_error, reason_text}

-- What can happen to an attempt: its promise settles, its deadline passes, BullMQ aborts it.
pub data AttemptEvent : Type 0 where
  settles : Completion Json → AttemptEvent
  deadline : AttemptEvent
  worker_aborts : Value → AttemptEvent

-- `abortError(signal, timeoutSignal, timeoutMs)`
unfoldable pub abort_error : Host → Value → Bool → ℕ → Value
abort_error host reason timed_out timeout_ms =
    if timed_out
    then kit (job_timeout timeout_ms)
    else if is_error host reason
    then reason
    else kit (job_cancelled (reason_text reason (codes "worker cancelled the job")))

-- How the race ends, and whether a handler was attached to the processor's promise, so that a
-- later rejection of it is not reported as unhandled.
pub record RaceResult : Type 0 where
  pub outcome : Completion Json
  pub handled : Bool

abbrev timeout_reason : Text
timeout_reason = codes "job timeout"

-- The first event that reaches the race; `watched` says whether BullMQ gave a signal. No result
-- means that the attempt is still running.
first_event : Host → Bool → ℕ → List AttemptEvent → Option RaceResult
unfolding abort_error
first_event host watched timeout_ms [] = none
first_event host watched timeout_ms (settles c ∷ es) = some (record { outcome = c; handled = true })
first_event host watched timeout_ms (deadline ∷ es) = some (record {
  outcome = throw (abort_error host (Value.str timeout_reason) true timeout_ms);
  handled = true;
})
first_event host true timeout_ms (worker_aborts reason ∷ es) =
    some (record { outcome = throw (abort_error host reason false timeout_ms); handled = true })
first_event host false timeout_ms (worker_aborts reason ∷ es) = first_event host false timeout_ms es

-- The timer has just been started when the race begins, so a signal that is aborted by then was
-- aborted by BullMQ; that throw comes before any handler is attached.
unfoldable pub race_with_abort : Host → Option Signal → ℕ → List AttemptEvent → Option RaceResult
unfolding first_event
race_with_abort host none timeout_ms es = first_event host false timeout_ms es
race_with_abort host (some signal) timeout_ms es =
    if signal.aborted
    then some (record {
      outcome = throw (abort_error host signal.reason false timeout_ms);
      handled = false;
    })
    else first_event host true timeout_ms es
