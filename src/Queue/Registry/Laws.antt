-- ===== src/Queue/Registry/Laws.antt =====
-- The set of queues is fixed: a name reaches a queue exactly if the process registered it.
use queue_worker_kit.Prelude.{
  Text, text_eq, text_eq_iff, any, List, [], ◌∷◌, ◌++◌, false, Option, none, some, if◌then◌else◌,
  ◌≡◌, refl, arith,
}
use queue_worker_kit.Dictionary.{Dictionary, lookup, insert, lookup-insert}
use queue_worker_kit.Values.{normal}
use queue_worker_kit.Queue.Registry.{
  Queue, QueueRegistry, add_queues, queue_or_throw, get_or_throw, create_queue_registry, get, close,
  names,
}

lookup-add_queues :
    (create : Text → Queue) (ns : List Text) (queues : Dictionary Queue) (name : Text)
    → lookup name (add_queues create ns queues)
      ≡ (if any (text_eq name) ns then some (create name) else lookup name queues)
unfolding add_queues
lookup-add_queues create [] queues name = refl
lookup-add_queues create (n ∷ ns) queues name = ground (
  arith,
  lookup-add_queues create ns (insert n (create n) queues) name,
  lookup-insert n name (create n) queues,
  text_eq_iff n name,
  text_eq_iff name n,
)

-- A lookup finds the queue that was created under that very name, and finds one exactly for the
-- names that the registry was created with: no other text can name a queue.
pub get-create_queue_registry :
    (create : Text → Queue) (ns : List Text) (name : Text)
    → get (create_queue_registry create ns) name
      ≡ (if any (text_eq name) ns then some (create name) else none)
unfolding get create_queue_registry
get-create_queue_registry create ns name = lookup-add_queues create ns [] name

queue_or_throw-ok :
    (name : Text) (o : Option Queue) {q : Queue} → queue_or_throw name o ≡ normal q → o ≡ some q
unfolding queue_or_throw
queue_or_throw-ok name none h = cc
queue_or_throw-ok name (some q) h = cc

pub get_or_throw-ok :
    (registry : QueueRegistry) (name : Text) {q : Queue}
    → get_or_throw registry name ≡ normal q
    → get registry name ≡ some q
unfolding get_or_throw
get_or_throw-ok registry name h = queue_or_throw-ok name (get registry name) h

pub get_or_throw-registered :
    (registry : QueueRegistry) (name : Text) (q : Queue)
    → get registry name ≡ some q
    → get_or_throw registry name ≡ normal q
unfolding get_or_throw
get_or_throw-registered registry name q h = rw h

-- Closing a registry again changes nothing, and the first call closes every queue once.
pub close_idempotent :
    (registry : QueueRegistry)
    → (close (close registry) ≡ close registry)
      × (registry.closing ≡ false → (close registry).closed ≡ registry.closed ++ names registry)
unfolding close
close_idempotent registry = ground arith
