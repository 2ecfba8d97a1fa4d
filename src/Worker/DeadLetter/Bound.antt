-- ===== src/Worker/DeadLetter/Bound.antt =====
-- The two bounds of the dead-letter queue (src/worker/dead-letter.ts): its length, and one entry
-- for one failure. And what is counted when the trimming fails after the write.
use mathlib.Core.Logic.{inl, inr}
use queue_worker_kit.Prelude.{
  ℕ, zero, suc, ◌-◌, ◌≤◌, ◌≡◌, refl, ap, sym, ◌∙◌, arith, Text, text_eq, text_eq_refl, length,
  length-append, drop, length-drop, ◌++◌, [], ◌∷◌, Bool, true, false, Bool-cases, if◌then◌else◌,
}
use queue_worker_kit.Config.Defaults.{dead_letter}
use queue_worker_kit.Values.{Value, normal, throw, Host}
use queue_worker_kit.Worker.DeadLetter.{
  DeadLetterRecord, DeadLetterInput, DeadLetterQueue, make_record, record_id, trim, store_record,
  write, record_failure,
}
use queue_worker_kit.Worker.DeadLetter.Laws.{
  Entries, added, IsWorking, counted, failures, record_failure-keeps_newest,
}

has : Text → Entries → Bool
has id [] = false
has id ((key, old) ∷ es) = if text_eq key id then true else has id es

added-known :
    (id : Text) (rec : DeadLetterRecord) (es : Entries) → has id es ≡ true → added id rec es ≡ es
unfolding has
added-known id rec [] h = ground arith
added-known id rec ((key, old) ∷ es) h = elim (Bool-cases (text_eq key id)) [
  | inl y ↦ rw y
  | inr n ↦ rw n (ap (λ (l : Entries). (key, old) ∷ l) (added-known id rec es (rw n at h)))
]

added-unknown :
    (id : Text) (rec : DeadLetterRecord) (es : Entries)
    → has id es ≡ false
    → added id rec es ≡ es ++ (id, rec) ∷ []
unfolding has
added-unknown id rec [] h = refl
added-unknown id rec ((key, old) ∷ es) h = elim (Bool-cases (text_eq key id)) [
  | inl y ↦ ground (arith, h, y)
  | inr n ↦ rw n (ap (λ (l : Entries). (key, old) ∷ l) (added-unknown id rec es (rw n at h)))
]

has-append :
    (id : Text) (rec : DeadLetterRecord) (es : Entries) → has id (es ++ (id, rec) ∷ []) ≡ true
unfolding has
has-append id rec [] = rw (text_eq_refl id)
has-append id rec ((key, old) ∷ es) = elim (Bool-cases (text_eq key id)) [
  | inl y ↦ rw y
  | inr n ↦ rw n (has-append id rec es)
]

has-drop-append :
    (id : Text) (rec : DeadLetterRecord) (n : ℕ) (es : Entries)
    → n ≤ length es
    → has id (drop n (es ++ (id, rec) ∷ [])) ≡ true
has-drop-append id rec zero es h = has-append id rec es
has-drop-append id rec (suc n) [] h = ground (arith, h)
has-drop-append id rec (suc n) (e ∷ es) h = has-drop-append id rec n es (omega (arith, h))

module _ (max_entries : ℕ) where
  -- The entries after a write: `kept` of those with the record added.
  kept : Entries → Entries
  kept es = drop (length es - max_entries) es

  length-kept : (es : Entries) → length (kept es) ≤ max_entries
  unfolding kept
  length-kept es = omega (arith, length-drop (length es - max_entries) es)

  kept-short : (es : Entries) → length es ≤ max_entries → kept es ≡ es
  unfolding kept
  kept-short es h =
      ap (λ (n : ℕ). drop n es) (let e : length es - max_entries ≡ 0 = omega (arith, h) in e)

  has-kept-added :
      (id : Text) (rec : DeadLetterRecord) (es : Entries)
      → 1 ≤ max_entries
      → length es ≤ max_entries
      → has id (kept (added id rec es)) ≡ true
  unfolding kept
  has-kept-added id rec es one h = elim (Bool-cases (has id es)) [
    | inl y ↦ rw (added-known id rec es y, kept-short es h) y
    | inr n ↦ rw (added-unknown id rec es n) (
        has-drop-append id rec (length (es ++ (id, rec) ∷ []) - max_entries) es
          (omega (arith, length-append es ((id, rec) ∷ []), one, h)))
  ]

  kept-added-twice :
      (id : Text) (rec again : DeadLetterRecord) (es : Entries)
      → 1 ≤ max_entries
      → length es ≤ max_entries
      → kept (added id again (kept (added id rec es))) ≡ kept (added id rec es)
  kept-added-twice id rec again es one h =
      ap kept (added-known id again (kept (added id rec es)) (has-kept-added id rec es one h))
      ∙ kept-short (kept (added id rec es)) (length-kept (added id rec es))

module _ {S : Type 0} (queue : DeadLetterQueue S) (host : Host) (max_entries : ℕ) where
  module _ (entries : S → Entries) (w : IsWorking queue entries) where
    -- After a failure of another queue is recorded, on a queue that answers, at most `max_entries` entries wait, whatever waited before.
    pub record_failure-bounded :
        (now : ℕ) (input : DeadLetterInput) (s : S)
        → text_eq input.source_queue dead_letter ≡ false
        → length (entries (record_failure queue host max_entries now input s).1) ≤ max_entries
    unfolding kept
    record_failure-bounded now input s h =
        rw (record_failure-keeps_newest queue host max_entries entries w now input s h).0 (
          length-kept max_entries
            (added (record_id input) (make_record host now input) (entries s)))

    -- Recording the same failure a second time, at whatever time, leaves the entries as the first left them, if the bound is positive and was kept before.
    pub record_failure_idempotent :
        (now later : ℕ) (input : DeadLetterInput) (s : S)
        → text_eq input.source_queue dead_letter ≡ false
        → 1 ≤ max_entries
        → length (entries s) ≤ max_entries
        → let once = (record_failure queue host max_entries now input s).1 in
          entries (record_failure queue host max_entries later input once).1 ≡ entries once
    unfolding kept
    record_failure_idempotent now later input s h one short =
        let first = record_failure-keeps_newest queue host max_entries entries w now input s h in
        let once : S = (record_failure queue host max_entries now input s).1 in
        (record_failure-keeps_newest queue host max_entries entries w later input once h).0
        ∙ ap
            (λ (es : Entries).
              kept max_entries (added (record_id input) (make_record host later input) es))
            first.0
        ∙ kept-added-twice max_entries (record_id input) (make_record host now input)
            (make_record host later input) (entries s) one short
        ∙ sym first.0

  -- When the record is added but counting the waiting entries then fails, the failure is counted
  -- both as moved to dead-letter and as a failed write.
  pub record_failure-misreported :
      (now : ℕ) (input : DeadLetterInput) (s : S) (v : Value)
      → text_eq input.source_queue dead_letter ≡ false
      → (queue.add (record_id input) (make_record host now input) s).0 ≡ normal tt
      → queue.waiting_count (queue.add (record_id input) (make_record host now input) s).1 ≡ throw v
      → (record_failure queue host max_entries now input s).1
          ≡ (queue.add (record_id input) (make_record host now input) s).1
        × counted (record_failure queue host max_entries now input s).2 ≡ 1
        × failures (record_failure queue host max_entries now input s).2 ≡ 1
  unfolding record_failure write store_record trim
  record_failure-misreported now input s v h a c = simp (h, a, c) (refl, refl, refl)
