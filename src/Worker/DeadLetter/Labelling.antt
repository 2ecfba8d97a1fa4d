-- ===== src/Worker/DeadLetter/Labelling.antt =====
-- The labels of what the dead-letter writer counts (src/worker/dead-letter.ts), whatever its queue does.
use queue_worker_kit.Prelude.{ℕ, ◌-◌, refl, Text, text_eq, leb, List, [], ◌∷◌, Bool-cases, inl, inr}
use queue_worker_kit.Config.Defaults.{dead_letter}
use queue_worker_kit.Values.{Completion, normal, throw, Host}
use queue_worker_kit.Observability.Effects.{Effect}
use queue_worker_kit.Observability.Labels.{is_labelled, AreLabelled, append-AreLabelled}
use queue_worker_kit.Worker.DeadLetter.{
  Action, continue, DeadLetterInput, DeadLetterQueue, make_record, record_id, remove_all, caught,
  trim_excess, trim, store_record, write, after_write, record_failure,
}

-- An action whose effects are labelled.
abbrev Labelled : {S A : Type 0} → Action S A → Type 0
Labelled {S} m = (s : S) → AreLabelled (m s).2

continue-AreLabelled :
    {S A B : Type 0} (es : List Effect) (r : Completion A) (s : S) (f : A → Action S B)
    → AreLabelled es
    → ((a : A) → Labelled (f a))
    → AreLabelled (continue es r s f).2
continue-AreLabelled es (normal a) s f h k = append-AreLabelled es (f a s).2 h (k a s)
continue-AreLabelled es (throw v) s f h k = h

module _ {S : Type 0} (queue : DeadLetterQueue S) (host : Host) (max_entries : ℕ) where
  caught-AreLabelled : (r : Completion (Unit {0})) → AreLabelled (caught queue host max_entries r)
  unfolding is_labelled
  caught-AreLabelled (normal u) = refl
  caught-AreLabelled (throw v) = refl

  remove_all-Labelled : (ids : List Text) → Labelled (remove_all queue host max_entries ids)
  unfolding remove_all
  remove_all-Labelled [] s = refl
  remove_all-Labelled (id ∷ ids) s =
      append-AreLabelled _ _ (caught-AreLabelled (queue.remove id s).0)
        (remove_all-Labelled ids (queue.remove id s).1)

  trim_excess-Labelled : (waiting : ℕ) → Labelled (trim_excess queue host max_entries waiting)
  unfolding trim_excess is_labelled
  trim_excess-Labelled waiting s =
      continue-AreLabelled [] (queue.get_waiting 0 (waiting - max_entries - 1) s) s _ refl
        λ oldest s'.
          continue-AreLabelled _ (remove_all queue host max_entries oldest s').0 _ _
            (remove_all-Labelled oldest s') λ u s''. refl

  trim-Labelled : Labelled (trim queue host max_entries)
  unfolding trim
  trim-Labelled s = continue-AreLabelled [] (queue.waiting_count s) s _ refl λ waiting s'.
      elim (Bool-cases (leb waiting max_entries)) [
        | inl y ↦ rw y refl
        | inr n ↦ rw n (trim_excess-Labelled waiting s')
      ]

  write-Labelled :
      (now : ℕ) (input : DeadLetterInput) → Labelled (write queue host max_entries now input)
  unfolding write store_record is_labelled
  write-Labelled now input s = elim (Bool-cases (text_eq input.source_queue dead_letter)) [
    | inl y ↦ rw y refl
    | inr n ↦ rw n (
        continue-AreLabelled [] (queue.add (record_id input) (make_record host now input) s).0 _ _
          refl (λ u s'. trim-Labelled s'))
  ]

  after_write-AreLabelled :
      (input : DeadLetterInput) (r : Completion (Unit {0}))
      → AreLabelled (after_write queue host max_entries input r)
  unfolding is_labelled
  after_write-AreLabelled input (normal u) = refl
  after_write-AreLabelled input (throw v) = refl

  pub record_failure-AreLabelled :
      (now : ℕ) (input : DeadLetterInput) (s : S)
      → AreLabelled (record_failure queue host max_entries now input s).2
  unfolding record_failure
  record_failure-AreLabelled now input s =
      append-AreLabelled _ _ (write-Labelled now input s)
        (after_write-AreLabelled input (write queue host max_entries now input s).0)
