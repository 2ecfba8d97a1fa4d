-- ===== src/Jobs/Processors/Cleanup.antt =====
-- src/jobs/definitions/cleanup.job.ts: the count of stale records, and the processor.
pub mod Laws
use queue_worker_kit.Prelude.{
  ℕ, ◌+◌, ◌-◌, ◌*◌, ◌/◌, ◌≤◌, Text, List, Bool, true, false, Option, none, some, if◌then◌else◌, ◌≡◌,
  arith, refl,
}
use queue_worker_kit.Values.{Value, Completion, normal, throw, Host}
use queue_worker_kit.Utils.Sleep.{Signal, Wake, slept}

-- `getTime()` of a date: milliseconds from 1970; `before_epoch n` is -(n + 1).
pub data Instant : Type 0 where
  since_epoch before_epoch : ℕ → Instant

abbrev ms_per_day : ℕ
ms_per_day = 86_400_000

-- `Math.max(0, Math.floor((now - before) / day)) * 17`
unfoldable pub count_stale_records : ℕ → Instant → ℕ
count_stale_records now (since_epoch before) = (now - before) / ms_per_day * 17
count_stale_records now (before_epoch n) = (now + n + 1) / ms_per_day * 17

pub record CleanupPayload : Type 0 where
  pub before : Text
  pub dry_run : Bool

pub record CleanupResult : Type 0 where
  pub before : Text
  pub dry_run : Bool
  pub scanned : ℕ
  pub removed : ℕ

swept : CleanupPayload → ℕ → Option (Completion (Unit {0})) → Option (Completion CleanupResult)
swept payload scanned none = none
swept payload scanned (some (throw v)) = some (throw v)
swept payload scanned (some (normal u)) = some (
    normal (record {
      before = payload.before;
      dry_run = payload.dry_run;
      scanned = scanned;
      removed = if payload.dry_run then 0 else scanned;
    }))

-- `new_date` is the host's `new Date(text)`, on a text that the schema has accepted.
unfoldable pub process_cleanup :
    Host
    → (Text → Instant)
    → ℕ
    → Signal
    → CleanupPayload
    → List Wake
    → Option (Completion CleanupResult)
unfolding swept slept
process_cleanup host new_date now signal payload wakes =
    swept payload (count_stale_records now (new_date payload.before)) (slept host signal wakes)
