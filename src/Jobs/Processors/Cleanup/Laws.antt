-- ===== src/Jobs/Processors/Cleanup/Laws.antt =====
-- The count of stale records moves with the clock.
use queue_worker_kit.Prelude.{ℕ, ◌+◌, ◌≤◌, ◌≡◌, arith}
use queue_worker_kit.Jobs.Processors.Cleanup.{since_epoch, count_stale_records}

-- A day later, the count for the same cutoff is greater by seventeen, for every cutoff that is not
-- in the future: it is not determined by the cutoff alone.
pub count_stale_records-grows :
    (now before : ℕ)
    → before ≤ now
    → count_stale_records (now + 86_400_000) (since_epoch before)
      ≡ count_stale_records now (since_epoch before) + 17
unfolding count_stale_records
count_stale_records-grows now before h = omega (arith, h)
