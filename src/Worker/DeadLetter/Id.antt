-- ===== src/Worker/DeadLetter/Id.antt =====
-- `toIdToken` and `deadLetterJobId` of src/worker/dead-letter.ts.
use queue_worker_kit.Prelude.{
  ℕ, Text, codes, decimal, decimal-All, decimal_injective, IsDigit, drop, leb, ◌==◌, ◌||◌, ◌&&◌,
  ◌++◌, [], ◌∷◌, map, Bool, true, if◌then◌else◌, text_eq, any, all, ◌≡◌, inl, inr, refl, ap, sym,
  ◌∙◌, arith, Lacks, All, text_eq_iff, Bool-cases,
}
use queue_worker_kit.Config.Defaults.{worker_queue_names, email, reports, maintenance}

-- `[A-Za-z0-9_-]`
unfoldable pub is_token_char : ℕ → Bool
is_token_char c =
    (leb b'A' c && leb c b'Z')
    || ((leb b'a' c && leb c b'z') || ((leb b'0' c && leb c b'9') || (c == b'_' || c == b'-')))

abbrev token_char : ℕ → ℕ
token_char c = if is_token_char c then c else b'_'

unfoldable pub to_id_token : Text → Text
to_id_token value = map token_char value

unfoldable pub dead_letter_job_id : Text → Text → ℕ → Text
unfolding to_id_token
dead_letter_job_id source_queue source_job_id attempts_made =
    codes "dlq-"
    ++ (to_id_token source_queue
        ++ (codes "-" ++ (to_id_token source_job_id ++ (codes "-" ++ decimal attempts_made))))

to_id_token-safe : (s : Text) → all is_token_char s ≡ true → to_id_token s ≡ s
unfolding to_id_token
to_id_token-safe [] h = refl
to_id_token-safe (c ∷ s) h = ground (arith, to_id_token-safe s)

Lacks-middle : (sep : ℕ) (xs ys : Text) → Lacks sep (xs ++ sep ∷ ys) → ⊥
Lacks-middle sep [] ys h = h.0 refl
Lacks-middle sep (x ∷ xs) ys h = Lacks-middle sep xs ys h.1

-- The last separator of a text splits it in one way.
split_last :
    (sep : ℕ) (xs ys us vs : Text)
    → Lacks sep ys
    → Lacks sep vs
    → xs ++ sep ∷ ys ≡ us ++ sep ∷ vs
    → (xs ≡ us) × (ys ≡ vs)
split_last sep [] ys [] vs h k e = (refl, cc)
split_last sep [] ys (u ∷ us) vs h k e =
    let e' : ys ≡ us ++ sep ∷ vs = cc in absurd (Lacks-middle sep us vs (rw e' at h))
split_last sep (x ∷ xs) ys [] vs h k e =
    let e' : xs ++ sep ∷ ys ≡ vs = cc in absurd (Lacks-middle sep xs ys (rw (← e') at k))
split_last sep (x ∷ xs) ys (u ∷ us) vs h k e =
    let ih = split_last sep xs ys us vs h k (cc) in (cc (ih.0), ih.1)

digits_lack_dash : (s : Text) → All IsDigit s → Lacks b'-' s
digits_lack_dash [] h = tt
digits_lack_dash (c ∷ s) h = (omega arith, digits_lack_dash s h.1)

abbrev pub IsWorkerQueue : Text → Type 0
IsWorkerQueue q = any (text_eq q) worker_queue_names ≡ true

data QueueCase (q : Text) : Type 0 where
  an_email : q ≡ email → QueueCase q
  a_report : q ≡ reports → QueueCase q
  a_maintenance : q ≡ maintenance → QueueCase q

queue_case : (q : Text) → IsWorkerQueue q → QueueCase q
queue_case q h = elim (Bool-cases (text_eq q email)) [
  | inl e ↦ an_email ((text_eq_iff q email).0 e)
  | inr ne ↦ elim (Bool-cases (text_eq q reports)) [
    | inl r ↦ a_report ((text_eq_iff q reports).0 r)
    | inr nr ↦ a_maintenance ((text_eq_iff q maintenance).0 (ground arith))
  ]
]

abbrev first_or : ℕ → Text → ℕ
first_or d [] = d
first_or d (c ∷ s) = c

-- What follows the queue in an id, and the character that tells the three queues apart.
module _ (i j : Text) (m n : ℕ) where
  abbrev Rest : Type 0
  Rest = to_id_token i ++ b'-' ∷ decimal m ≡ to_id_token j ++ b'-' ∷ decimal n

  abbrev SameId : Text → Text → Type 0
  SameId q r = dead_letter_job_id q i m ≡ dead_letter_job_id r j n

  after_email : SameId email email → Rest
  unfolding dead_letter_job_id is_token_char
  after_email e = ap (drop 10) e

  after_reports : SameId reports reports → Rest
  unfolding dead_letter_job_id is_token_char
  after_reports e = ap (drop 12) e

  after_maintenance : SameId maintenance maintenance → Rest
  unfolding dead_letter_job_id is_token_char
  after_maintenance e = ap (drop 16) e

  abbrev fifth : Text → ℕ
  fifth s = first_or 0 (drop 4 s)

  queues_differ :
      ¬ SameId email reports
      × ¬ SameId email maintenance
      × ¬ SameId reports email
      × ¬ SameId reports maintenance
      × ¬ SameId maintenance email
      × ¬ SameId maintenance reports
  unfolding dead_letter_job_id is_token_char
  queues_differ = (
    (λ e. let d : ◌≡◌ {A = ℕ} 101 114 = ap fifth e in absurd (omega arith)),
    (λ e. let d : ◌≡◌ {A = ℕ} 101 109 = ap fifth e in absurd (omega arith)),
    (λ e. let d : ◌≡◌ {A = ℕ} 114 101 = ap fifth e in absurd (omega arith)),
    (λ e. let d : ◌≡◌ {A = ℕ} 114 109 = ap fifth e in absurd (omega arith)),
    (λ e. let d : ◌≡◌ {A = ℕ} 109 101 = ap fifth e in absurd (omega arith)),
    (λ e. let d : ◌≡◌ {A = ℕ} 109 114 = ap fifth e in absurd (omega arith)),
  )

  same_queue : (q r : Text) → IsWorkerQueue q → IsWorkerQueue r → SameId q r → (q ≡ r) × Rest
  same_queue q r hq hr e = elim (queue_case q hq) [
    | an_email p ↦ elim (queue_case r hr) [
      | an_email p' ↦ (p ∙ sym p', after_email (rw (p, p') at e))
      | a_report p' ↦ absurd (queues_differ.0 (rw (p, p') at e))
      | a_maintenance p' ↦ absurd (queues_differ.1 (rw (p, p') at e))
    ]
    | a_report p ↦ elim (queue_case r hr) [
      | an_email p' ↦ absurd (queues_differ.2 (rw (p, p') at e))
      | a_report p' ↦ (p ∙ sym p', after_reports (rw (p, p') at e))
      | a_maintenance p' ↦ absurd (queues_differ.3 (rw (p, p') at e))
    ]
    | a_maintenance p ↦ elim (queue_case r hr) [
      | an_email p' ↦ absurd (queues_differ.4 (rw (p, p') at e))
      | a_report p' ↦ absurd (queues_differ.5 (rw (p, p') at e))
      | a_maintenance p' ↦ (p ∙ sym p', after_maintenance (rw (p, p') at e))
    ]
  ]

-- Over the queues that workers consume and ids that need no flattening, two failures share an id
-- only if they are of the same queue, job and attempt.
pub dead_letter_job_id-injective :
    (q r i j : Text) (m n : ℕ)
    → IsWorkerQueue q
    → IsWorkerQueue r
    → all is_token_char i ≡ true
    → all is_token_char j ≡ true
    → dead_letter_job_id q i m ≡ dead_letter_job_id r j n
    → (q ≡ r) × (i ≡ j) × (m ≡ n)
dead_letter_job_id-injective q r i j m n hq hr hi hj e =
    let (same, rest) = same_queue i j m n q r hq hr e in
    let rest' : i ++ b'-' ∷ decimal m ≡ j ++ b'-' ∷ decimal n =
      rw (to_id_token-safe i hi, to_id_token-safe j hj) at rest in
    let (ids, numbers) =
      split_last b'-' i (decimal m) j (decimal n) (digits_lack_dash (decimal m) (decimal-All m))
        (digits_lack_dash (decimal n) (decimal-All n)) rest' in
    (same, ids, decimal_injective m n numbers)
