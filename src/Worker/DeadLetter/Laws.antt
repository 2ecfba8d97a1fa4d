-- ===== src/Worker/DeadLetter/Laws.antt =====
-- What `record` of the dead-letter writer (src/worker/dead-letter.ts) guarantees, on a queue whose
-- operations do what BullMQ documents.
use mathlib.Core.Logic.{inl, inr}
use queue_worker_kit.Prelude.{
  ℕ, zero, suc, ◌∙◌, ◌-◌, ◌<◌, ◌≡◌, refl, ap, arith, Text, text_eq, text_eq_refl, codes, leb,
  length, take, drop, total, total-append, ◌++◌, List, [], ◌∷◌, true, false, Bool-cases,
  if◌then◌else◌,
}
use queue_worker_kit.Config.Defaults.{dead_letter}
use queue_worker_kit.Values.{Completion, normal, throw, Host}
use queue_worker_kit.Observability.Effects.{
  Effect, Level, debug, warn, inc, log, jobs_dead_lettered, dead_letter_write_failures,
}
use queue_worker_kit.Worker.DeadLetter.{
  DeadLetterRecord, DeadLetterInput, DeadLetterQueue, make_record, record_id, remove_all, caught,
  trim_excess, trim, store_record, write, record_failure,
}

abbrev pub Entries : Type 0
Entries = List (Text × DeadLetterRecord)

-- `Queue.add` under an explicit job id, which ignores an id that exists.
abbrev pub added : Text → DeadLetterRecord → Entries → Entries
added id rec [] = (id, rec) ∷ []
added id rec ((key, old) ∷ es) =
    if text_eq key id then (key, old) ∷ es else (key, old) ∷ added id rec es

abbrev pub erased : Text → Entries → Entries
erased id [] = []
erased id ((key, old) ∷ es) = if text_eq key id then es else (key, old) ∷ erased id es

abbrev pub ids : Entries → List Text
ids [] = []
ids ((key, old) ∷ es) = key ∷ ids es

-- The documented behaviour of a queue that answers: `entries` are the waiting ones, oldest first.
pub record IsWorking {S : Type 0} (queue : DeadLetterQueue S) (entries : S → Entries) : Type 0 where
  pub add_answers :
      (id : Text) (rec : DeadLetterRecord) (s : S) → (queue.add id rec s).0 ≡ normal tt
  pub add_adds :
      (id : Text) (rec : DeadLetterRecord) (s : S)
      → entries (queue.add id rec s).1 ≡ added id rec (entries s)
  pub count_answers : (s : S) → queue.waiting_count s ≡ normal (length (entries s))
  pub waiting_answers :
      (to : ℕ) (s : S) → queue.get_waiting 0 to s ≡ normal (ids (take (suc to) (entries s)))
  pub remove_answers : (id : Text) (s : S) → (queue.remove id s).0 ≡ normal tt
  pub remove_erases : (id : Text) (s : S) → entries (queue.remove id s).1 ≡ erased id (entries s)

abbrev dead_lettered_by : Effect → ℕ
dead_lettered_by (inc jobs_dead_lettered l) = 1
dead_lettered_by e = 0

abbrev write_failure_by : Effect → ℕ
write_failure_by (inc dead_letter_write_failures l) = 1
write_failure_by e = 0

-- How often the two counters of the module were incremented.
abbrev pub counted : List Effect → ℕ
counted = total dead_lettered_by

abbrev pub failures : List Effect → ℕ
failures = total write_failure_by

erased-first : (id : Text) (rec : DeadLetterRecord) (es : Entries) → erased id ((id, rec) ∷ es) ≡ es
erased-first id rec es = rw (text_eq_refl id)

module _ {S : Type 0} (queue : DeadLetterQueue S) (host : Host) (max_entries : ℕ) where
  caught-uncounted :
      (f : Effect → ℕ)
      → ((l : Level) (t : Text) → f (log l t) ≡ 0)
      → (r : Completion (Unit {0})) (es : List Effect) → total f es ≡ 0
      → total f (caught queue host max_entries r ++ es) ≡ 0
  caught-uncounted f h (normal u) es e = e
  caught-uncounted f h (throw v) es e =
      omega (arith, h debug (codes "could not evict dead-letter record"), e)

  remove_all-uncounted :
      (f : Effect → ℕ)
      → ((l : Level) (t : Text) → f (log l t) ≡ 0)
      → (ids : List Text) (s : S) → total f (remove_all queue host max_entries ids s).2 ≡ 0
  unfolding remove_all
  remove_all-uncounted f h [] s = refl
  remove_all-uncounted f h (id ∷ l) s =
      caught-uncounted f h (queue.remove id s).0
        (remove_all queue host max_entries l (queue.remove id s).1).2
        (remove_all-uncounted f h l (queue.remove id s).1)

  -- Whatever the queue does, `record` returns and does not throw.
  pub record_failure_never_throws :
      (now : ℕ) (input : DeadLetterInput) (s : S)
      → (record_failure queue host max_entries now input s).0 ≡ normal tt
  unfolding record_failure
  record_failure_never_throws now input s = refl

  -- A failure of the dead-letter queue itself is refused: the queue is not called and nothing is counted.
  pub record_failure-dead_letter :
      (now : ℕ) (input : DeadLetterInput) (s : S)
      → input.source_queue ≡ dead_letter
      → (record_failure queue host max_entries now input s).1 ≡ s
        × counted (record_failure queue host max_entries now input s).2 ≡ 0
        × failures (record_failure queue host max_entries now input s).2 ≡ 0
  unfolding record_failure write
  record_failure-dead_letter now input s h = simp (h, text_eq_refl dead_letter) (refl, refl, refl)

module _ {S : Type 0} (queue : DeadLetterQueue S) (host : Host) (max_entries : ℕ)
    (entries : S → Entries) (w : IsWorking queue entries) where
  remove_all-entries :
      (k : ℕ) (es : Entries) (s : S)
      → entries s ≡ es
      → entries (remove_all queue host max_entries (ids (take k es)) s).1 ≡ drop k es
  unfolding remove_all
  remove_all-entries zero es s h = h
  remove_all-entries (suc k) [] s h = h
  remove_all-entries (suc k) ((id, rec) ∷ es) s h =
      remove_all-entries k es (queue.remove id s).1
        (w.remove_erases id s ∙ ap (erased id) h ∙ erased-first id rec es)

  remove_all-answers :
      (l : List Text) (s : S) → (remove_all queue host max_entries l s).0 ≡ normal tt
  unfolding remove_all
  remove_all-answers [] s = refl
  remove_all-answers (id ∷ l) s = remove_all-answers l (queue.remove id s).1

  evicted :
      (s : S)
      → max_entries < length (entries s)
      → queue.get_waiting 0 (length (entries s) - max_entries - 1) s
        ≡ normal (ids (take (length (entries s) - max_entries) (entries s)))
  evicted s h =
      w.waiting_answers (length (entries s) - max_entries - 1) s
      ∙ ap (λ (n : ℕ). normal (ids (take n (entries s))))
          (let e : suc (length (entries s) - max_entries - 1) ≡ length (entries s) - max_entries =
              omega (arith, h) in
            e)

  -- What `trim` does to the entries, and that it neither throws nor counts.
  Trims : S → Completion (Unit {0}) × S × List Effect → Type 0
  Trims s r =
      r.0 ≡ normal tt
      × entries r.1 ≡ drop (length (entries s) - max_entries) (entries s)
      × ((f : Effect → ℕ) → ((l : Level) (t : Text) → f (log l t) ≡ 0) → total f r.2 ≡ 0)

  trim_excess-Trims :
      (s : S)
      → max_entries < length (entries s)
      → Trims s (trim_excess queue host max_entries (length (entries s)) s)
  unfolding trim_excess Trims
  trim_excess-Trims s h =
      rw
        (
          evicted s h,
          remove_all-answers (ids (take (length (entries s) - max_entries) (entries s))) s,
        )
        (
          refl,
          remove_all-entries (length (entries s) - max_entries) (entries s) s refl,
          λ f hl. omega (
            arith,
            total-append f
                (remove_all queue host max_entries
                  (ids (take (length (entries s) - max_entries) (entries s))) s).2
                (log warn (codes "dead-letter queue trimmed") ∷ []),
            remove_all-uncounted queue host max_entries f hl
                (ids (take (length (entries s) - max_entries) (entries s))) s,
            hl warn (codes "dead-letter queue trimmed"),
          ),
        )

  within_bound :
      (es : Entries) → leb (length es) max_entries ≡ true → es ≡ drop (length es - max_entries) es
  within_bound es h =
      ap (λ (n : ℕ). drop n es) (let e : 0 ≡ length es - max_entries = ground arith in e)

  trim-Trims : (s : S) → Trims s (trim queue host max_entries s)
  unfolding trim Trims
  trim-Trims s = rw (w.count_answers s) (elim (Bool-cases (leb (length (entries s)) max_entries)) [
    | inl y ↦ rw y (refl, within_bound (entries s) y, λ f h. refl)
    | inr n ↦ rw n (trim_excess-Trims s (ground arith))
  ])

  -- A failure of another queue, on a queue that answers: afterwards the record is among the entries
  -- (unchanged if its id was there), of which the newest `max_entries` survive; it is counted once
  -- as moved to dead-letter, and no write failure is counted.
  pub record_failure-keeps_newest :
      (now : ℕ) (input : DeadLetterInput) (s : S)
      → text_eq input.source_queue dead_letter ≡ false
      → let all = added (record_id input) (make_record host now input) (entries s) in
        entries (record_failure queue host max_entries now input s).1
          ≡ drop (length all - max_entries) all
        × counted (record_failure queue host max_entries now input s).2 ≡ 1
        × failures (record_failure queue host max_entries now input s).2 ≡ 0
  unfolding record_failure write store_record Trims
  record_failure-keeps_newest now input s h =
      let s1 : S = (queue.add (record_id input) (make_record host now input) s).1 in
      let t : Trims s1 (trim queue host max_entries s1) = trim-Trims s1 in
      simp (h, w.add_answers (record_id input) (make_record host now input) s, t.0)
        (
          t.1
              ∙ ap (λ (es : Entries). drop (length es - max_entries) es)
                  (w.add_adds (record_id input) (make_record host now input) s),
          omega (
            arith,
            total-append dead_lettered_by (trim queue host max_entries s1).2 [],
            t.2 dead_lettered_by (λ l x. refl),
          ),
          omega (
            arith,
            total-append write_failure_by (trim queue host max_entries s1).2 [],
            t.2 write_failure_by (λ l x. refl),
          ),
        )
