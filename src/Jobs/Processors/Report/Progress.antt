-- ===== src/Jobs/Processors/Report/Progress.antt =====
-- The progress of a report: what is reported, when it ends, and how an abort ends it.
use queue_worker_kit.Prelude.{
  ◌≡◌, refl, ap, ◌∙◌, arith, Text, length, map, All, ◌++◌, List, [], ◌∷◌, true, false, Option, none,
  some, ltb, Bool-cases, inl, inr,
}
use queue_worker_kit.Values.{Completion, normal, throw, Host}
use queue_worker_kit.Utils.Sleep.{Wake, timer_fires, slept, throw_if_aborted, abort_reason}
use queue_worker_kit.Utils.Sleep.Laws.{run-start}
use queue_worker_kit.Jobs.Processors.Report.{
  Format, Stage, ReportProgress, stages, Moment, progress_of, waited, Loop, after_update,
  after_wait, after_check, run_stages, GenerateReportResult, report_result, finished,
  process_report,
}

-- The calls so far are the first of the list.
abbrev pub Begins : Loop → List ReportProgress → Type 0
Begins l all = (rest : List ReportProgress) × (l.1 ++ rest ≡ all)

after_check-Begins :
    (p : ReportProgress) (updated : Completion (Unit {0})) (l : Loop)
    (wait : Option (Completion (Unit {0}))) (check : Completion (Unit {0}))
    (all : List ReportProgress)
    → Begins l all
    → Begins (after_check p updated l wait check) (p ∷ all)
unfolding after_check after_wait after_update
after_check-Begins p updated l wait (throw v) all h = (p ∷ all, refl)
after_check-Begins p updated l none (normal u) all h = (p ∷ all, refl)
after_check-Begins p updated l (some (throw v)) (normal u) all h = (p ∷ all, refl)
after_check-Begins p (throw v) l (some (normal w)) (normal u) all h = (all, refl)
after_check-Begins p (normal x) l (some (normal w)) (normal u) all (rest, e) =
    (rest, ap (λ (ps : List ReportProgress). p ∷ ps) e)

-- Whatever the signals, the timers and the answers are, the progress that has been reported is the
-- first part of the list of stages, in its order, each stage once.
pub run_stages-Begins :
    (host : Host) (ss : List Stage) (moments : List Moment)
    → Begins (run_stages host ss moments) (map progress_of ss)
unfolding run_stages
run_stages-Begins host [] moments = ([], refl)
run_stages-Begins host (s ∷ ss) [] = (map progress_of (s ∷ ss), refl)
run_stages-Begins host (s ∷ ss) (m ∷ ms) =
    after_check-Begins (progress_of s) m.updated (run_stages host ss ms) _ _ (map progress_of ss)
      (run_stages-Begins host ss ms)

-- What a stage that ended well tells of its parts.
record Passed (p : ReportProgress) (updated : Completion (Unit {0})) (l : Loop)
    (wait : Option (Completion (Unit {0}))) (check : Completion (Unit {0}))
    (ps : List ReportProgress) : Type 0 where
  check_passed : check ≡ normal tt
  wait_over : wait ≡ some (normal tt)
  update_done : updated ≡ normal tt
  rest_over : l.0 ≡ some (normal tt)
  reported : ps ≡ p ∷ l.1

after_check-Passed :
    (p : ReportProgress) (updated : Completion (Unit {0})) (l : Loop)
    (wait : Option (Completion (Unit {0}))) (check : Completion (Unit {0}))
    → (after_check p updated l wait check).0 ≡ some (normal tt)
    → Passed p updated l wait check (after_check p updated l wait check).1
unfolding after_check after_wait after_update
after_check-Passed p updated l wait (throw v) h = cc
after_check-Passed p updated l none (normal u) h = cc
after_check-Passed p updated l (some (throw v)) (normal u) h = cc
after_check-Passed p (throw v) l (some (normal w)) (normal u) h = cc
after_check-Passed p (normal x) l (some (normal w)) (normal u) h = record {
  check_passed = refl;
  wait_over = refl;
  update_done = refl;
  rest_over = h;
  reported = refl;
}

after_check-of_Passed :
    (p : ReportProgress) (updated : Completion (Unit {0})) (l k : Loop)
    (wait : Option (Completion (Unit {0}))) (check : Completion (Unit {0}))
    → check ≡ normal tt
    → wait ≡ some (normal tt)
    → updated ≡ normal tt
    → l ≡ k
    → after_check p updated l wait check ≡ (k.0, p ∷ k.1)
unfolding after_check after_wait after_update
after_check-of_Passed p updated l k wait check c w u e = rw (c, w, u, e) refl

run_stages_complete :
    (host : Host) (ss : List Stage) (moments : List Moment)
    → (run_stages host ss moments).0 ≡ some (normal tt)
    → (run_stages host ss moments).1 ≡ map progress_of ss
unfolding run_stages
run_stages_complete host [] moments h = refl
run_stages_complete host (s ∷ ss) [] h = cc
run_stages_complete host (s ∷ ss) (m ∷ ms) h =
    let passed = after_check-Passed (progress_of s) m.updated (run_stages host ss ms) _ _ h in
    passed.reported
    ∙ ap (λ (ps : List ReportProgress). progress_of s ∷ ps)
        (run_stages_complete host ss ms passed.rest_over)

-- If a report is aborted when a stage is about to begin, and the stages before it were passed, it
-- throws the reason of the abort, and has reported those stages and no more.
run_stages-aborts :
    (host : Host) (before after : List Stage) (s : Stage) (earlier later : List Moment) (m : Moment)
    → length earlier ≡ length before
    → (run_stages host before earlier).0 ≡ some (normal tt)
    → m.signal.aborted ≡ true
    → run_stages host (before ++ s ∷ after) (earlier ++ m ∷ later)
      ≡ (some (throw (abort_reason host m.signal.reason)), map progress_of before)
unfolding run_stages throw_if_aborted after_check after_wait after_update
run_stages-aborts host [] after s [] later m e h a = rw a refl
run_stages-aborts host [] after s (x ∷ earlier) later m e h a = ground (arith, e)
run_stages-aborts host (b ∷ before) after s [] later m e h a = ground (arith, e)
run_stages-aborts host (b ∷ before) after s (x ∷ earlier) later m e h a =
    let passed =
      after_check-Passed (progress_of b) x.updated (run_stages host before earlier) _ _ h in
    let rest =
      run_stages-aborts host before after s earlier later m (omega (arith, e)) passed.rest_over a in
    after_check-of_Passed (progress_of b) x.updated _ _ _ _ passed.check_passed passed.wait_over
      passed.update_done rest

-- The signal is not aborted, the timer fires, and the update is accepted.
abbrev pub Undisturbed : Moment → Type 0
Undisturbed m =
    (m.signal.aborted ≡ false)
    × ((es : List Wake) × (m.wakes ≡ timer_fires ∷ es))
    × (m.updated ≡ normal tt)

waited-Undisturbed :
    (host : Host) (s : Stage) (m : Moment) → Undisturbed m → waited host s m ≡ some (normal tt)
unfolding slept
waited-Undisturbed host s m (live, (es, fires), updated) = elim (Bool-cases (ltb 0 s.work_ms)) [
  | inr n ↦ rw n refl
  | inl y ↦ rw y ((run-start host (some m.signal) m.wakes).0 ∙ (rw (live, fires) refl))
]

run_stages-Undisturbed :
    (host : Host) (ss : List Stage) (moments : List Moment)
    → length moments ≡ length ss
    → All Undisturbed moments
    → run_stages host ss moments ≡ (some (normal tt), map progress_of ss)
unfolding run_stages throw_if_aborted
run_stages-Undisturbed host [] moments e h = refl
run_stages-Undisturbed host (s ∷ ss) [] e h = ground (arith, e)
run_stages-Undisturbed host (s ∷ ss) (m ∷ ms) e h =
    after_check-of_Passed (progress_of s) m.updated _ _ _ _ (rw h.0.0 refl)
      (waited-Undisturbed host s m h.0) h.0.2
      (run_stages-Undisturbed host ss ms (omega (arith, e)) h.1)

-- A report that is not disturbed, no signal being aborted, every timer firing and every update
-- being accepted, ends with its result after its four stages, and has reported 10, 40, 70 and 100
-- per cent, in this order.
process_report-finishes :
    (host : Host) (id : Text) (format : Format) (moments : List Moment)
    → length moments ≡ 4
    → All Undisturbed moments
    → (process_report host id format moments
        ≡ (some (normal (report_result id format)), map progress_of stages))
      × (map (λ p. p.percent) (map progress_of stages) ≡ 10 ∷ 40 ∷ 70 ∷ 100 ∷ [])
unfolding process_report finished
process_report-finishes host id format moments e h =
    let all = run_stages-Undisturbed host stages moments e h in (rw all refl, refl)

finished-normal :
    (id : Text) (format : Format) (o : Option (Completion (Unit {0}))) (r : GenerateReportResult)
    → finished id format o ≡ some (normal r)
    → o ≡ some (normal tt)
unfolding finished
finished-normal id format none r h = cc
finished-normal id format (some (throw v)) r h = cc
finished-normal id format (some (normal u)) r h = refl

-- A report has a result only when all its stages have been reported.
pub process_report_complete :
    (host : Host) (id : Text) (format : Format) (moments : List Moment) (r : GenerateReportResult)
    → (process_report host id format moments).0 ≡ some (normal r)
    → (process_report host id format moments).1 ≡ map progress_of stages
unfolding process_report
process_report_complete host id format moments r h =
    run_stages_complete host stages moments
      (finished-normal id format (run_stages host stages moments).0 r h)
