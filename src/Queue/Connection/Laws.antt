-- ===== src/Queue/Connection/Laws.antt =====
-- The bounds on reconnecting, and how the wait for Redis ends (src/queue/connection.ts).
use native.Mathlib.Numerals.{unary_clauses}
use queue_worker_kit.Prelude.{
  ℕ, suc, zero, ◌+◌, ◌*◌, ◌-◌, ◌/◌, ◌^◌, ◌≤◌, ◌<◌, min, ◌≡◌, refl, arith, List, [], ◌∷◌, Bool, true,
  false, Option, none, some, is_some, if◌then◌else◌,
}
use queue_worker_kit.Queue.Connection.{
  backoff, retry_strategy, ReadyWait, ReadyEvent, becomes_ready, times_out, start_wait,
  on_ready_event, wait_until_redis_ready,
}

one_at_least : (n : ℕ) → 1 ≤ 2 ^ n
one_at_least zero = omega arith
one_at_least (suc n) =
    let e : 2 ^ suc n ≡ 2 ^ n * 2 = simp unary_clauses in omega (arith, e, one_at_least n)

Bounds : ℕ → ℕ → Type 0
Bounds b d = (b ≤ 2 * d) × (d < b) × (100 ≤ d) × (d < 5_000)

Bounds-at :
    (p r : ℕ)
    → 1 ≤ p
    → (0 < min (200 * p) 5_000 / 2 → r < min (200 * p) 5_000 / 2)
    → Bounds (min (200 * p) 5_000) (min (200 * p) 5_000 / 2 + r)
unfolding Bounds
Bounds-at p r h fair = ground arith

-- With a jitter below the half that it is asked for, the delay before a reconnection is at least
-- half of the backoff, below the backoff, at least 100 ms, and below 5 seconds, however often it was tried.
pub retry_strategy-bounds :
    (random : ℕ → ℕ)
    → ((k : ℕ) → 0 < k → random k < k)
    → (times : ℕ) → 1 ≤ times
    → (backoff times ≤ 2 * retry_strategy random times)
      × (retry_strategy random times < backoff times)
      × (100 ≤ retry_strategy random times)
      × (retry_strategy random times < 5_000)
unfolding backoff retry_strategy Bounds
retry_strategy-bounds random fair times h =
    Bounds-at (2 ^ (times - 1)) (random (backoff times / 2)) (one_at_least (times - 1))
      (fair (backoff times / 2))

abbrev pub first_answer : List ReadyEvent → Option Bool
first_answer [] = none
first_answer (becomes_ready ∷ es) = some true
first_answer (times_out ∷ es) = some false

abbrev pub Waits : ReadyWait → Option Bool → Type 0
Waits w expected =
    (w.resolved ≡ expected) × (is_some expected ≡ true → (w.timer ≡ false) × (w.listener ≡ false))

settled-stays :
    (b : Bool) (es : List ReadyEvent)
    → wait_until_redis_ready (record { resolved = some b; timer = false; listener = false }) es
      ≡ record { resolved = some b; timer = false; listener = false }
unfolding wait_until_redis_ready on_ready_event
settled-stays b [] = refl
settled-stays b (becomes_ready ∷ es) = settled-stays b es
settled-stays b (times_out ∷ es) = settled-stays b es

-- The wait resolves to true at once on a client that is ready, else by the first of the `ready`
-- event and the timer, whatever follows; and then it leaves neither a timer nor a listener.
pub wait_until_redis_ready-Waits :
    (ready : Bool) (es : List ReadyEvent)
    → Waits
        (wait_until_redis_ready (start_wait ready) es)
        (if ready then some true else first_answer es)
unfolding wait_until_redis_ready on_ready_event start_wait
wait_until_redis_ready-Waits true es = rw (settled-stays true es) (refl, λ h. (refl, refl))
wait_until_redis_ready-Waits false [] = (refl, λ h. ground (arith, h))
wait_until_redis_ready-Waits false (becomes_ready ∷ es) =
    rw (settled-stays true es) (refl, λ h. (refl, refl))
wait_until_redis_ready-Waits false (times_out ∷ es) =
    rw (settled-stays false es) (refl, λ h. (refl, refl))
