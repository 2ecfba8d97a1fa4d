-- ===== src/Observability/Metrics.antt =====
-- The metrics that `createMetrics` of src/observability/metrics.ts registers. The registry is
-- prom-client's; it refuses a second metric of the same name.
use queue_worker_kit.Prelude.{
  Text, codes, text_eq, any, ◌++◌, ◌&&◌, map, not, List, [], ◌∷◌, Bool, true, ◌≡◌, refl,
}
use queue_worker_kit.Observability.Effects.{
  Counter, jobs_enqueued, jobs_started, jobs_completed, jobs_failed, jobs_retrying,
  jobs_dead_lettered, jobs_stalled, dead_letter_write_failures,
}

pub data MetricKind : Type 0 where
  counter_metric gauge_metric histogram_metric : MetricKind

pub record Metric : Type 0 where
  pub kind : MetricKind
  pub name : Text
  pub label_names : List Text

abbrev metric_prefix : Text
metric_prefix = codes "qwk_"

abbrev job_label_names : List Text
job_label_names = codes "queue" ∷ codes "job_name" ∷ []

abbrev by_queue : List Text
by_queue = codes "queue" ∷ []

abbrev counter : Text → List Text → Metric
counter name labels = record {
  kind = counter_metric;
  name = metric_prefix ++ name;
  label_names = labels;
}

unfoldable pub metric_of : Counter → Metric
metric_of jobs_enqueued = counter (codes "jobs_enqueued_total") job_label_names
metric_of jobs_started = counter (codes "jobs_started_total") job_label_names
metric_of jobs_completed = counter (codes "jobs_completed_total") job_label_names
metric_of jobs_failed = counter (codes "jobs_failed_total") job_label_names
metric_of jobs_retrying = counter (codes "jobs_retrying_total") job_label_names
metric_of jobs_dead_lettered = counter (codes "jobs_dead_lettered_total") job_label_names
metric_of jobs_stalled = counter (codes "jobs_stalled_total") by_queue
metric_of dead_letter_write_failures = counter (codes "dead_letter_write_failures_total") by_queue

abbrev pub counters : List Counter
counters =
    jobs_enqueued ∷ jobs_started ∷ jobs_completed ∷ jobs_failed ∷ jobs_retrying ∷ jobs_dead_lettered
    ∷ jobs_stalled ∷ dead_letter_write_failures ∷ []

-- In the order in which they are registered.
unfoldable pub created_metrics : List Metric
unfolding metric_of
created_metrics =
    record {
      kind = gauge_metric;
      name = metric_prefix ++ codes "queue_jobs";
      label_names = codes "queue" ∷ codes "state" ∷ [];
    }
      ∷ map metric_of counters
    ++ record {
      kind = histogram_metric;
      name = metric_prefix ++ codes "job_duration_seconds";
      label_names = job_label_names;
    }
      ∷ []

abbrev pub are_distinct : List Text → Bool
are_distinct [] = true
are_distinct (name ∷ names) = not (any (text_eq name) names) && are_distinct names

-- No two of the metrics have the same name, so that a fresh registry takes all of them.
pub created_metrics_distinct : are_distinct (map (λ m. m.name) created_metrics) ≡ true
unfolding created_metrics text_eq
created_metrics_distinct = refl
