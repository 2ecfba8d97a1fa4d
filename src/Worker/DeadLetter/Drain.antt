-- ===== src/Worker/DeadLetter/Drain.antt =====
-- The writes in flight of src/worker/dead-letter.ts: `pending`, and `drain` at a shutdown. A write is
-- known by a number, fresh for each call of `record`.
use queue_worker_kit.Prelude.{
  ℕ, ◌==◌, ◌≡◌, refl, ap, ◌∙◌, length, keep, all, List, [], ◌∷◌, Bool, true, false, not, ◌&&◌, ◌||◌,
  Bool-cases, inl, inr,
}

-- A write begins, or its promise settles (a failed one settles too: `record` has caught its error),
-- or the timer of the drain fires.
pub data WriteEvent : Type 0 where
  begins settles : ℕ → WriteEvent
  drain_deadline : WriteEvent

-- `set.delete(id)`
unfoldable pub without : ℕ → List ℕ → List ℕ
without id ids = keep (λ x. not (x == id)) ids

-- The set `inFlight`.
unfoldable pub in_flight : List ℕ → List WriteEvent → List ℕ
unfolding without
in_flight ids [] = ids
in_flight ids (begins id ∷ es) = in_flight (id ∷ ids) es
in_flight ids (settles id ∷ es) = in_flight (without id ids) es
in_flight ids (drain_deadline ∷ es) = in_flight ids es

unfoldable pub pending : List ℕ → ℕ
pending ids = length ids

-- The writes that a drain still waits for, of those that were in flight when it was called; after
-- its timer it waits for none.
unfoldable pub awaited : List ℕ → List WriteEvent → List ℕ
unfolding without
awaited ids [] = ids
awaited ids (begins id ∷ es) = awaited ids es
awaited ids (settles id ∷ es) = awaited (without id ids) es
awaited ids (drain_deadline ∷ es) = []

abbrev is_empty : List ℕ → Bool
is_empty [] = true
is_empty (id ∷ ids) = false

-- Whether the promise of a `drain` that is called with these writes in flight has resolved.
unfoldable pub drained : List ℕ → List WriteEvent → Bool
unfolding awaited
drained ids es = is_empty (awaited ids es)

abbrev pub settles_in : List WriteEvent → ℕ → Bool
settles_in [] id = false
settles_in (settles x ∷ es) id = (id == x) || settles_in es id
settles_in (e ∷ es) id = settles_in es id

abbrev pub times_out_in : List WriteEvent → Bool
times_out_in [] = false
times_out_in (drain_deadline ∷ es) = true
times_out_in (e ∷ es) = times_out_in es

all-without :
    (x : ℕ) (p : ℕ → Bool) (ids : List ℕ)
    → all p (without x ids) ≡ all (λ id. (id == x) || p id) ids
unfolding without
all-without x p [] = refl
all-without x p (id ∷ ids) = elim (Bool-cases (id == x)) [
  | inl y ↦ rw y (all-without x p ids)
  | inr n ↦ rw n (ap (λ (b : Bool). p id && b) (all-without x p ids))
]

all-never : (ids : List ℕ) → is_empty ids ≡ (all (λ id. false) ids || false)
all-never [] = refl
all-never (id ∷ ids) = refl

or-true : (b : Bool) → true ≡ (b || true)
or-true true = refl
or-true false = refl

-- A drain resolves exactly when every write that was in flight at its call has settled, or when
-- its timer has fired. The writes that begin after the call are not waited for.
pub drained_iff :
    (ids : List ℕ) (es : List WriteEvent)
    → drained ids es ≡ (all (settles_in es) ids || times_out_in es)
unfolding drained awaited
drained_iff ids [] = all-never ids
drained_iff ids (begins id ∷ es) = drained_iff ids es
drained_iff ids (settles id ∷ es) =
    drained_iff (without id ids) es
    ∙ ap (λ (b : Bool). b || times_out_in es) (all-without id (settles_in es) ids)
drained_iff ids (drain_deadline ∷ es) = or-true (all (settles_in es) ids)
