-- ===== src/Api/Jobs/Laws.antt =====
-- What the endpoints of src/api/routes/jobs.routes.ts answer.
use mathlib.Core.Logic.{inl, inr}
use queue_worker_kit.Prelude.{
  ◌≡◌, ◌≢◌, refl, sym, ap, ◌∙◌, subst, arith, Text, text_eq, text_eq_iff, List, true, false,
  Bool-cases, Option, none, some, or_else, is_some, any, if◌then◌else◌,
}
use queue_worker_kit.Values.{normal, >>=-eq-normal, normal-injective}
use queue_worker_kit.Json.{obj, Fields, end, field, property, get_field}
use queue_worker_kit.Api.Jobs.{
  is_option_key, payload_of, JobSnapshot, JobStatusResponse, QueueReads, is_settled, status_of_job,
  needs_reread, settled_snapshot, found_or_throw, queue_or_throw, readable_queue, job_status,
}

pub get_field-payload :
    (key : Text) (fs : Fields)
    → is_option_key key ≡ false
    → get_field key (payload_of fs) ≡ get_field key fs
unfolding payload_of get_field
get_field-payload key end h = refl
get_field-payload key (field k v fs) h = elim (Bool-cases (text_eq key k)) [
  | inl y ↦
      let same : is_option_key k ≡ false =
        subst (λ (t : Text). is_option_key t ≡ false) ((text_eq_iff key k).0 y) h in
      rw (same, y)
  | inr n ↦ elim (Bool-cases (is_option_key k)) [
    | inl o ↦ rw (o, n) (get_field-payload key fs h)
    | inr p ↦ rw (p, n) (get_field-payload key fs h)
  ]
]

apart : true ≢ false
apart h = ground (arith, h)

get_field-option :
    (key : Text) (fs : Fields) → is_option_key key ≡ true → get_field key (payload_of fs) ≡ none
unfolding payload_of get_field
get_field-option key end h = refl
get_field-option key (field k v fs) h = elim (Bool-cases (is_option_key k)) [
  | inl o ↦ rw o (get_field-option key fs h)
  | inr p ↦ elim (Bool-cases (text_eq key k)) [
    | inl y ↦
        absurd (
          apart
            (sym (subst (λ (t : Text). is_option_key t ≡ true) ((text_eq_iff key k).0 y) h) ∙ p))
    | inr n ↦ rw (p, n) (get_field-option key fs h)
  ]
]

-- The payload that a request leaves has the fields of the body but the three options.
pub property-payload :
    (key : Text) (fs : Fields)
    → property key (obj (payload_of fs))
      ≡ (if is_option_key key then none else property key (obj fs))
unfolding property
property-payload key fs = elim (Bool-cases (is_option_key key)) [
  | inl o ↦ rw o (get_field-option key fs o)
  | inr p ↦ rw p (get_field-payload key fs p)
]

settled_snapshot-finished :
    (reads : QueueReads) (state : Text) (job latest : JobSnapshot)
    → is_settled state ≡ true
    → ((again : JobSnapshot)
        → reads.get_job_again ≡ normal (some again)
        → is_some again.finished_on ≡ true)
    → (reads.get_job_again ≢ normal none)
    → settled_snapshot reads state job ≡ normal latest
    → is_some latest.finished_on ≡ true
unfolding settled_snapshot needs_reread
settled_snapshot-finished reads state job latest settled written kept h =
    elim (Bool-cases (is_some job.finished_on)) [
      | inl y ↦
          subst (λ (j : JobSnapshot). is_some j.finished_on ≡ true)
            (normal-injective (simp (settled, y) at h)) y
      | inr n ↦
          let (again, e, last) =
            >>=-eq-normal reads.get_job_again (λ again. normal (or_else again job))
              (simp (settled, n) at h) in
          reread again e last
    ]
  where
    reread :
        (again : Option JobSnapshot)
        → reads.get_job_again ≡ normal again
        → normal (or_else again job) ≡ normal latest
        → is_some latest.finished_on ≡ true
    reread none e last = absurd (kept e)
    reread (some j) e last =
        subst (λ (j : JobSnapshot). is_some j.finished_on ≡ true) (normal-injective last)
          (written j e)

queue_or_throw-some :
    (name : Text) (o : Option QueueReads) (reads : QueueReads)
    → queue_or_throw name o ≡ normal reads
    → o ≡ some reads
queue_or_throw-some name none reads h = ground (arith, h)
queue_or_throw-some name (some q) reads h = ap (λ (x : QueueReads). some x) (normal-injective h)

readable_queue-some :
    (readable : List Text) (queues : Text → Option QueueReads) (name : Text) (reads : QueueReads)
    → readable_queue readable queues name ≡ some reads
    → queues name ≡ some reads
unfolding readable_queue
readable_queue-some readable queues name reads h = elim (Bool-cases (any (text_eq name) readable)) [
  | inl y ↦ rw y at h
  | inr n ↦ ground (arith, rw n at h)
]

-- A job reported as completed or failed is reported with the time at which it finished, if the
-- second read, where the first is older than the state, still finds the job and finds it finished.
pub job_status-finished :
    (readable : List Text) (queues : Text → Option QueueReads) (name id : Text)
    (r : JobStatusResponse)
    → ((reads : QueueReads)
        → queues name ≡ some reads
        → ((again : JobSnapshot)
            → reads.get_job_again ≡ normal (some again)
            → is_some again.finished_on ≡ true)
          × (reads.get_job_again ≢ normal none))
    → job_status readable queues name id ≡ normal r
    → is_settled r.state ≡ true
    → is_some r.finished_at ≡ true
unfolding job_status status_of_job
job_status-finished readable queues name id r written h settled =
    let (reads, e1, h1) =
      >>=-eq-normal (queue_or_throw name (readable_queue readable queues name)) _ h in
    let (found, e2, h2) = >>=-eq-normal reads.get_job _ h1 in
    let (job, e3, h3) = >>=-eq-normal (found_or_throw name id found) _ h2 in
    let (state, e4, h4) = >>=-eq-normal reads.get_state _ h3 in
    let (latest, e5, last) = >>=-eq-normal (settled_snapshot reads state job) _ h4 in
    let reread =
      written reads
        (readable_queue-some readable queues name reads (queue_or_throw-some name _ reads e1)) in
    subst (λ (r : JobStatusResponse). is_settled r.state ≡ true → is_some r.finished_at ≡ true)
      (normal-injective last)
      (λ settled. settled_snapshot-finished reads state job latest settled reread.0 reread.1 e5)
      settled
