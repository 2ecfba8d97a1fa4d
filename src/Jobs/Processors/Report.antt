-- ===== src/Jobs/Processors/Report.antt =====
-- src/jobs/definitions/generate-report.job.ts: the stages of a report, with their progress.
pub mod Progress
use queue_worker_kit.Prelude.{
  ℕ, ◌*◌, ltb, Text, codes, List, [], ◌∷◌, Bool, Option, none, some, if◌then◌else◌,
}
use queue_worker_kit.Values.{Value, Completion, normal, throw, Host}
use queue_worker_kit.Utils.Sleep.{Signal, Wake, slept, throw_if_aborted}

pub data Format : Type 0 where
  csv json : Format

pub data StageName : Type 0 where
  query transform serialize done : StageName

pub record Stage : Type 0 where
  pub stage : StageName
  pub percent : ℕ
  pub work_ms : ℕ

pub record ReportProgress : Type 0 where
  pub percent : ℕ
  pub stage : StageName

abbrev pub stages : List Stage
stages =
    record { stage = query; percent = 10; work_ms = 40 }
    ∷ record { stage = transform; percent = 40; work_ms = 40 }
    ∷ record { stage = serialize; percent = 70; work_ms = 40 }
    ∷ record { stage = done; percent = 100; work_ms = 0 }
    ∷ []

-- What a stage meets: the signal at its check, the callbacks of its sleep, and what
-- `job.updateProgress` answers.
pub record Moment : Type 0 where
  pub signal : Signal
  pub wakes : List Wake
  pub updated : Completion (Unit {0})

abbrev pub progress_of : Stage → ReportProgress
progress_of s = record { percent = s.percent; stage = s.stage }

abbrev waited : Host → Stage → Moment → Option (Completion (Unit {0}))
waited host s m = if ltb 0 s.work_ms then slept host m.signal m.wakes else some (normal tt)

-- The outcome of the loop, absent while it waits, and the calls of `updateProgress` so far.
abbrev pub Loop : Type 0
Loop = Option (Completion (Unit {0})) × List ReportProgress

after_update : ReportProgress → Completion (Unit {0}) → Loop → Loop
after_update p (throw v) rest = (some (throw v), p ∷ [])
after_update p (normal u) (o, ps) = (o, p ∷ ps)

after_wait : ReportProgress → Completion (Unit {0}) → Loop → Option (Completion (Unit {0})) → Loop
unfolding after_update
after_wait p updated rest none = (none, [])
after_wait p updated rest (some (throw v)) = (some (throw v), [])
after_wait p updated rest (some (normal u)) = after_update p updated rest

after_check :
    ReportProgress
    → Completion (Unit {0})
    → Loop
    → Option (Completion (Unit {0}))
    → Completion (Unit {0})
    → Loop
unfolding after_wait
after_check p updated rest wait (throw v) = (some (throw v), [])
after_check p updated rest wait (normal u) = after_wait p updated rest wait

-- One moment for each stage that has begun.
unfoldable pub run_stages : Host → List Stage → List Moment → Loop
unfolding after_check
run_stages host [] moments = (some (normal tt), [])
run_stages host (s ∷ ss) [] = (none, [])
run_stages host (s ∷ ss) (m ∷ ms) =
    let rest = run_stages host ss ms in
    after_check (progress_of s) m.updated rest (waited host s m) (throw_if_aborted host m.signal)

pub record GenerateReportResult : Type 0 where
  pub report_id : Text
  pub format : Format
  pub generated_rows : ℕ
  pub bytes : ℕ

abbrev pub rows_per_report : ℕ
rows_per_report = 2_500

abbrev bytes_of : Format → ℕ
bytes_of csv = rows_per_report * 42
bytes_of json = rows_per_report * 96

abbrev pub report_result : Text → Format → GenerateReportResult
report_result id format = record {
  report_id = id;
  format = format;
  generated_rows = rows_per_report;
  bytes = bytes_of format;
}

finished : Text → Format → Option (Completion (Unit {0})) → Option (Completion GenerateReportResult)
finished id format none = none
finished id format (some (throw v)) = some (throw v)
finished id format (some (normal u)) = some (normal (report_result id format))

unfoldable pub process_report :
    Host
    → Text
    → Format
    → List Moment
    → Option (Completion GenerateReportResult) × List ReportProgress
unfolding finished
process_report host id format moments =
    let (outcome, progress) = run_stages host stages moments in
    (finished id format outcome, progress)
