-- ===== src/Queue/Enqueue/Labelling.antt =====
-- The labels of what `enqueue` counts (src/queue/enqueue.ts).
use queue_worker_kit.Prelude.{◌≡◌, refl, Text, Option, none, some}
use queue_worker_kit.Values.{Completion, normal, throw}
use queue_worker_kit.Json.{Json}
use queue_worker_kit.Jobs.Types.{Zod, envelope_json}
use queue_worker_kit.Observability.Effects.{Exec, lift, ◌>>=◌}
use queue_worker_kit.Observability.Labels.{is_labelled, AreLabelled}
use queue_worker_kit.Queue.Registry.{QueueRegistry}
use queue_worker_kit.Queue.Enqueue.{submit, enqueue}
use queue_worker_kit.Queue.Enqueue.Prepare.{EnqueueOptions, Caller, Prepared, prepare}

lift-AreLabelled :
    {A B : Type 0} (c : Completion A) (f : A → Exec B)
    → ((a : A) → AreLabelled (f a).1)
    → AreLabelled (lift c >>= f).1
lift-AreLabelled (normal a) f h = h a
lift-AreLabelled (throw v) f h = refl

answered-AreLabelled :
    (options : EnqueueOptions) (p : Prepared) (added : Completion (Option Text))
    → p.queue.add p.definition.name (envelope_json p.envelope) p.options ≡ added
    → AreLabelled (submit options p).1
unfolding submit is_labelled
answered-AreLabelled options p (normal none) h = rw h refl
answered-AreLabelled options p (normal (some id)) h = rw h refl
answered-AreLabelled options p (throw v) h = rw h refl

submit-AreLabelled : (options : EnqueueOptions) (p : Prepared) → AreLabelled (submit options p).1
submit-AreLabelled options p = answered-AreLabelled options p _ refl

pub enqueue-AreLabelled :
    (zod : Zod) (queues : QueueRegistry) (caller : Caller) (name : Text) (payload : Json)
    (options : EnqueueOptions)
    → AreLabelled (enqueue zod queues caller name payload options).1
unfolding enqueue
enqueue-AreLabelled zod queues caller name payload options =
    lift-AreLabelled (prepare zod queues caller name payload options) (submit options)
      (submit-AreLabelled options)
