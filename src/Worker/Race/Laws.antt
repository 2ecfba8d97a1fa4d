-- ===== src/Worker/Race/Laws.antt =====
-- How an attempt's race ends.
use queue_worker_kit.Prelude.{
  ℕ, List, [], ◌∷◌, Bool, true, false, Option, none, some, is_some, ◌≡◌, refl, arith, inl, inr,
  Bool-cases, any,
}
use queue_worker_kit.Values.{Value, kit, job_timeout, Completion, throw, Host}
use queue_worker_kit.Json.{Json}
use queue_worker_kit.Utils.Sleep.{Signal}
use queue_worker_kit.Worker.Race.{
  AttemptEvent, settles, deadline, worker_aborts, abort_error, RaceResult, race_with_abort,
  first_event,
}

abbrev pub is_aborted : Option Signal → Bool
is_aborted none = false
is_aborted (some signal) = signal.aborted

abbrev pub ends : AttemptEvent → Bool
ends (settles c) = true
ends deadline = true
ends (worker_aborts r) = false

first_event-ends :
    (host : Host) (watched : Bool) (timeout_ms : ℕ) (es : List AttemptEvent)
    → any ends es ≡ true
    → is_some (first_event host watched timeout_ms es) ≡ true
unfolding first_event
first_event-ends host watched ms [] h = cc
first_event-ends host watched ms (settles c ∷ es) h = refl
first_event-ends host watched ms (deadline ∷ es) h = refl
first_event-ends host true ms (worker_aborts r ∷ es) h = refl
first_event-ends host false ms (worker_aborts r ∷ es) h = first_event-ends host false ms es h

-- Whatever BullMQ does to the signal, an attempt ends once its promise settles or its deadline
-- passes.
pub race_with_abort-ends :
    (host : Host) (signal : Option Signal) (timeout_ms : ℕ) (es : List AttemptEvent)
    → any ends es ≡ true
    → is_some (race_with_abort host signal timeout_ms es) ≡ true
unfolding race_with_abort
race_with_abort-ends host none ms es h = first_event-ends host false ms es h
race_with_abort-ends host (some signal) ms es h = elim (Bool-cases signal.aborted) [
  | inl e ↦ simp e
  | inr e ↦ simp e (first_event-ends host true ms es h)
]

-- Against a promise that is rejected already, a race throws: that error, or the abort's.
pub race_with_abort-rejected :
    (host : Host) (signal : Option Signal) (timeout_ms : ℕ) (v : Value) (r : RaceResult)
    → race_with_abort host signal timeout_ms (settles (throw v) ∷ []) ≡ some r
    → (w : Value) × (r.outcome ≡ throw w) × (is_aborted signal ≡ false → w ≡ v)
unfolding race_with_abort first_event
race_with_abort-rejected host none ms v r h = (v, ground arith, λ _. refl)
race_with_abort-rejected host (some signal) ms v r h = elim (Bool-cases signal.aborted) [
  | inl e ↦ (abort_error host signal.reason false ms, ground arith, λ n. cc)
  | inr e ↦ (v, ground arith, λ _. refl)
]

pub race_with_abort-deadline :
    (host : Host) (signal : Option Signal) (timeout_ms : ℕ) (es : List AttemptEvent)
    (r : RaceResult)
    → is_aborted signal ≡ false
    → race_with_abort host signal timeout_ms (deadline ∷ es) ≡ some r
    → r.outcome ≡ throw (kit (job_timeout timeout_ms))
unfolding race_with_abort abort_error
race_with_abort-deadline host none ms es r live h = ground arith
race_with_abort-deadline host (some signal) ms es r live h = ground arith

-- A promise that settles first, before any abort, decides the race.
pub race_with_abort-settles :
    (host : Host) (signal : Option Signal) (timeout_ms : ℕ) (c : Completion Json)
    (es : List AttemptEvent) (r : RaceResult)
    → is_aborted signal ≡ false
    → race_with_abort host signal timeout_ms (settles c ∷ es) ≡ some r
    → r.outcome ≡ c
unfolding race_with_abort first_event
race_with_abort-settles host none ms c es r live h = ground arith
race_with_abort-settles host (some signal) ms c es r live h = ground arith
