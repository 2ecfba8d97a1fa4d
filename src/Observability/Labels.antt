-- ===== src/Observability/Labels.antt =====
-- Whether an increment gives a counter the labels that it was created with
-- (src/observability/metrics.ts): prom-client throws on a label that it does not know.
use queue_worker_kit.Prelude.{
  ◌≡◌, codes, text_eq, any, all, ◌++◌, List, [], ◌∷◌, Bool, true, false, is_some, &&-true,
}
use queue_worker_kit.Observability.Effects.{Effect, inc, observe_duration}
use queue_worker_kit.Observability.Metrics.{metric_of}

abbrev same : Bool → Bool → Bool
same true b = b
same false true = false
same false false = true

-- The queue is a label of every counter; the name of the job is given exactly where it is one.
unfoldable pub is_labelled : Effect → Bool
unfolding metric_of text_eq
is_labelled (inc c labels) =
    same (any (text_eq (codes "job_name")) (metric_of c).label_names) (is_some labels.job_name)
is_labelled (observe_duration labels d) = is_some labels.job_name
is_labelled e = true

abbrev pub AreLabelled : List Effect → Type 0
AreLabelled es = all is_labelled es ≡ true

pub append-AreLabelled :
    (es fs : List Effect) → AreLabelled es → AreLabelled fs → AreLabelled (es ++ fs)
append-AreLabelled [] fs h k = k
append-AreLabelled (e ∷ es) fs h k =
    let (here, later) = &&-true (is_labelled e) (all is_labelled es) h in
    rw here (append-AreLabelled es fs later k)
