-- ===== src/Queue/Registry.antt =====
-- src/queue/registry.ts: the fixed set of queues of a process. A queue is BullMQ's object: what
-- its `add` answers is a parameter.
pub mod Laws
use queue_worker_kit.Prelude.{
  Text, codes, text_eq, ◌++◌, List, [], ◌∷◌, Bool, true, false, Option, none, some, if◌then◌else◌,
  map,
}
use queue_worker_kit.Dictionary.{Dictionary, lookup, insert, keys}
use queue_worker_kit.Values.{Value, kit, plain, Completion, normal, throw}
use queue_worker_kit.Json.{Json}
use queue_worker_kit.Jobs.Types.{JobsOptions}
use queue_worker_kit.Jobs.Registry.{quoted}

pub record Queue : Type 0 where
  pub name : Text
  pub add : Text → Json → JobsOptions → Completion (Option Text)

-- `closing` says whether `close` has been called, and `closed` which queues it has closed.
pub record QueueRegistry : Type 0 where
  pub queues : Dictionary Queue
  pub closing : Bool
  pub closed : List Text

add_queues : (Text → Queue) → List Text → Dictionary Queue → Dictionary Queue
add_queues create [] queues = queues
add_queues create (name ∷ names) queues = add_queues create names (insert name (create name) queues)

unfoldable pub create_queue_registry : (Text → Queue) → List Text → QueueRegistry
unfolding add_queues insert
create_queue_registry create names = record {
  queues = add_queues create names [];
  closing = false;
  closed = [];
}

unfoldable pub get : QueueRegistry → Text → Option Queue
unfolding lookup
get registry name = lookup name registry.queues

queue_or_throw : Text → Option Queue → Completion Queue
queue_or_throw name none =
    throw
      (kit (plain (codes "Queue " ++ (quoted name ++ codes " is not registered in this process"))))
queue_or_throw name (some queue) = normal queue

unfoldable pub get_or_throw : QueueRegistry → Text → Completion Queue
unfolding queue_or_throw
get_or_throw registry name = queue_or_throw name (get registry name)

unfoldable pub names : QueueRegistry → List Text
unfolding keys
names registry = keys registry.queues

-- `closing ??= …`: only the first call closes the queues.
unfoldable pub close : QueueRegistry → QueueRegistry
unfolding names
close registry =
    if registry.closing
    then registry
    else record registry { closing = true; closed = registry.closed ++ names registry }
