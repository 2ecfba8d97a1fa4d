-- ===== src/Observability/QueueDepth.antt =====
-- The gauge of the queue depths: its `collect` hook in src/observability/metrics.ts, and the
-- collector that src/api/server.ts registers. The gauge is prom-client's.
use queue_worker_kit.Prelude.{
  ℕ, Text, text_eq, ◌&&◌, List, [], ◌∷◌, Bool, true, Option, none, some, if◌then◌else◌, ◌≡◌, refl,
  ◌∙◌, ap, Bool-cases, inl, inr,
}
use queue_worker_kit.Values.{Completion, normal, throw}

-- A gauge: its samples by their labels, the queue and the state.
pub record Gauge (G : Type 0) : Type 0 where
  pub reset : G → G
  pub set : Text → Text → ℕ → G → G
  pub sample : G → Text → Text → Option ℕ

pub record GaugeLaws {G : Type 0} (gauge : Gauge G) : Type 0 where
  pub sample-reset : (g : G) (queue state : Text) → gauge.sample (gauge.reset g) queue state ≡ none
  pub sample-set :
      (q s : Text) (n : ℕ) (g : G) (queue state : Text)
      → gauge.sample (gauge.set q s n g) queue state
        ≡ (if text_eq q queue && text_eq s state then some n else gauge.sample g queue state)

-- What `getJobCounts` answered for a queue: the counts by state, or an error.
pub record Answer : Type 0 where
  pub queue : Text
  pub counts : Completion (List (Text × ℕ))

module _ {G : Type 0} (gauge : Gauge G) where
  unfoldable pub set_all : Text → List (Text × ℕ) → G → G
  set_all queue [] g = g
  set_all queue ((state, n) ∷ counts) g = set_all queue counts (gauge.set queue state n g)

  -- A queue that cannot be asked is left out: its error is logged.
  abbrev pub report_queue : Text → Completion (List (Text × ℕ)) → G → G
  report_queue queue (throw v) g = g
  report_queue queue (normal counts) g = set_all queue counts g

  -- The collector, with the answers in the order in which they arrive.
  unfoldable pub report_all : List Answer → G → G
  unfolding set_all
  report_all [] g = g
  report_all (a ∷ answers) g = report_all answers (report_queue a.queue a.counts g)

  -- The hook: nothing without a collector, else a reset and the collector.
  unfoldable pub collect_queue_depth : Option (List Answer) → G → G
  unfolding report_all
  collect_queue_depth none g = g
  collect_queue_depth (some answers) g = report_all answers (gauge.reset g)

-- The last count that the list has for a state.
abbrev pub or_last : Option ℕ → Option ℕ → Option ℕ
or_last (some n) old = some n
or_last none old = old

abbrev pub count_in : Text → List (Text × ℕ) → Option ℕ
count_in state [] = none
count_in state ((s, n) ∷ counts) =
    or_last (count_in state counts) (if text_eq s state then some n else none)

-- The depth that the answers give for a queue and a state, whatever was sampled before.
abbrev pub depth_of : Text → Text → Completion (List (Text × ℕ)) → Bool → Option ℕ
depth_of queue state (normal counts) true = count_in state counts
depth_of queue state counts same = none

abbrev pub depth_in : Text → Text → List Answer → Option ℕ
depth_in queue state [] = none
depth_in queue state (a ∷ answers) =
    or_last (depth_in queue state answers) (depth_of queue state a.counts (text_eq a.queue queue))

or_last_assoc : (a b c : Option ℕ) → or_last a (or_last b c) ≡ or_last (or_last a b) c
or_last_assoc none b c = refl
or_last_assoc (some n) b c = refl

or_last-none : (a : Option ℕ) → or_last a none ≡ a
or_last-none none = refl
or_last-none (some n) = refl

merged :
    (q s : Text) (n : ℕ) (counts : List (Text × ℕ)) (queue state : Text) (old now : Option ℕ)
    → now ≡ (if text_eq q queue && text_eq s state then some n else old)
    → or_last (if text_eq q queue then count_in state counts else none) now
      ≡ or_last (if text_eq q queue then count_in state ((s, n) ∷ counts) else none) old
merged q s n counts queue state old now e = elim (Bool-cases (text_eq q queue)) [
  | inr k ↦ rw (e, k) refl
  | inl y ↦ elim (Bool-cases (text_eq s state)) [
    | inl z ↦ rw (e, y, z) (or_last_assoc (count_in state counts) (some n) old)
    | inr k ↦ rw (e, y, k) (or_last_assoc (count_in state counts) none old)
  ]
]

module _ {G : Type 0} {gauge : Gauge G} (laws : GaugeLaws gauge) where
  sample-set_all :
      (q : Text) (counts : List (Text × ℕ)) (g : G) (queue state : Text)
      → gauge.sample (set_all gauge q counts g) queue state
        ≡ or_last
            (if text_eq q queue then count_in state counts else none)
            (gauge.sample g queue state)
  unfolding set_all
  sample-set_all q [] g queue state = elim (Bool-cases (text_eq q queue)) [
    | inl y ↦ rw y refl
    | inr n ↦ rw n refl
  ]
  sample-set_all q ((s, n) ∷ counts) g queue state =
      sample-set_all q counts (gauge.set q s n g) queue state
      ∙ merged q s n counts queue state (gauge.sample g queue state) _
          (laws.sample-set q s n g queue state)

  sample-report_queue :
      (q : Text) (c : Completion (List (Text × ℕ))) (g : G) (queue state : Text)
      → gauge.sample (report_queue gauge q c g) queue state
        ≡ or_last (depth_of queue state c (text_eq q queue)) (gauge.sample g queue state)
  sample-report_queue q (throw v) g queue state = refl
  sample-report_queue q (normal counts) g queue state =
      sample-set_all q counts g queue state
      ∙ elim (Bool-cases (text_eq q queue)) [ inl y ↦ rw y refl | inr n ↦ rw n refl ]

  sample-report_all :
      (answers : List Answer) (g : G) (queue state : Text)
      → gauge.sample (report_all gauge answers g) queue state
        ≡ or_last (depth_in queue state answers) (gauge.sample g queue state)
  unfolding report_all
  sample-report_all [] g queue state = refl
  sample-report_all (a ∷ answers) g queue state =
      sample-report_all answers (report_queue gauge a.queue a.counts g) queue state
      ∙ ap (λ (o : Option ℕ). or_last (depth_in queue state answers) o)
          (sample-report_queue a.queue a.counts g queue state)
      ∙ or_last_assoc (depth_in queue state answers) _ (gauge.sample g queue state)

  -- After a scrape, the gauge shows exactly the counts that were answered during that scrape: for
  -- a queue that could not be asked, or a state that is no longer counted, it shows nothing,
  -- whatever it showed before.
  pub sample-collect_queue_depth :
      (answers : List Answer) (g : G) (queue state : Text)
      → gauge.sample (collect_queue_depth gauge (some answers) g) queue state
        ≡ depth_in queue state answers
  unfolding collect_queue_depth
  sample-collect_queue_depth answers g queue state =
      sample-report_all answers (gauge.reset g) queue state
      ∙ ap (λ (o : Option ℕ). or_last (depth_in queue state answers) o)
          (laws.sample-reset g queue state)
      ∙ or_last-none (depth_in queue state answers)
