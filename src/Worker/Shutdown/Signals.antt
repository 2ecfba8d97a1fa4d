-- ===== src/Worker/Shutdown/Signals.antt =====
-- `installSignalHandlers` of src/worker/graceful-shutdown.ts. The listeners of the process are
-- Node's: a list for each event, in the order of their calls; a listener is known by a number.
use mathlib.Core.List.{append-nil, append_assoc}
use queue_worker_kit.Prelude.{
  ℕ, suc, ◌<◌, ◌==◌, ◌≡◌, refl, ap, sym, ◌∙◌, arith, Text, codes, text_eq, text_eq_refl, any, ◌++◌,
  ◌&&◌, List, [], ◌∷◌, Bool, true, false, Option, or_else, if◌then◌else◌, Bool-cases, inl, inr,
}
use queue_worker_kit.Values.{Value}
use queue_worker_kit.Observability.Effects.{Effect, log, info, error, fatal}
use queue_worker_kit.Worker.Shutdown.{ShutdownEvent, shutdown}

record Listener : Type 0 where
  event : Text
  id : ℕ

abbrev is_same : Listener → Listener → Bool
is_same l x = (x.id == l.id) && text_eq x.event l.event

-- `process.on` and `process.off`, which takes away the last one that was added.
unfoldable on : Listener → List Listener → List Listener
on l ls = ls ++ l ∷ []

unfoldable off : Listener → List Listener → List Listener
off l [] = []
off l (x ∷ xs) =
    let rest = off l xs in
    if any (is_same l) xs then x ∷ rest else if is_same l x then xs else x ∷ xs

abbrev default_signals : List Text
default_signals = codes "SIGTERM" ∷ codes "SIGINT" ∷ []

-- The listeners that an installation adds, with numbers from `next` on.
abbrev numbered : ℕ → List Text → List Listener
numbered next [] = []
numbered next (event ∷ events) = record { event = event; id = next } ∷ numbered (suc next) events

unfoldable added : ℕ → Option (List Text) → List Listener
added next signals =
    numbered next (
      or_else signals default_signals
      ++ codes "unhandledRejection" ∷ codes "uncaughtException" ∷ [])

abbrev on_all : List Listener → List Listener → List Listener
on_all [] ls = ls
on_all (a ∷ new) ls = on_all new (on a ls)

-- `for (const remove of removeListeners) remove()`
unfoldable remove_listeners : List Listener → List Listener → List Listener
unfolding off
remove_listeners [] ls = ls
remove_listeners (a ∷ new) ls = remove_listeners new (off a ls)

unfoldable install_signal_handlers : ℕ → Option (List Text) → List Listener → List Listener
unfolding on added
install_signal_handlers next signals ls = on_all (added next signals) ls

-- What a listener is called with, and what it does: a log record and a call of `shutdown`.
data ProcessEvent : Type 0 where
  signal : Text → ProcessEvent
  unhandled_rejection uncaught_exception : Value → ProcessEvent

unfoldable handle : ProcessEvent → Effect × ShutdownEvent
handle (signal name) = (log info (codes "signal received"), shutdown name)
handle (unhandled_rejection reason) =
    (log error (codes "unhandled promise rejection"), shutdown (codes "unhandledRejection"))
handle (uncaught_exception e) =
    (log fatal (codes "uncaught exception"), shutdown (codes "uncaughtException"))

numbered-apart :
    (k next : ℕ) (event : Text) (events : List Text)
    → k < next
    → any (is_same (record { event = event; id = k })) (numbered next events) ≡ false
numbered-apart k next event [] h = refl
numbered-apart k next event (e ∷ events) h =
    ground (arith, numbered-apart k (suc next) event events (omega (arith, h)))

is_same_refl : (l : Listener) → is_same l l ≡ true
is_same_refl l = ground (arith, text_eq_refl l.event)

any-same : (l : Listener) (ls rest : List Listener) → any (is_same l) (ls ++ l ∷ rest) ≡ true
any-same l [] rest = rw (is_same_refl l) refl
any-same l (x ∷ ls) rest = elim (Bool-cases (is_same l x)) [
  | inl y ↦ rw y refl
  | inr n ↦ rw n (any-same l ls rest)
]

off-last :
    (l : Listener) (ls rest : List Listener)
    → any (is_same l) rest ≡ false
    → off l (ls ++ l ∷ rest) ≡ ls ++ rest
unfolding off
off-last l [] rest a = rw (a, is_same_refl l) refl
off-last l (x ∷ ls) rest a =
    rw (any-same l ls rest) (ap (λ (xs : List Listener). x ∷ xs) (off-last l ls rest a))

on_all-append : (new ls : List Listener) → on_all new ls ≡ ls ++ new
unfolding on
on_all-append [] ls = sym (append-nil ls)
on_all-append (a ∷ new) ls = on_all-append new (ls ++ a ∷ []) ∙ append_assoc ls (a ∷ []) new

remove-numbered :
    (next : ℕ) (events : List Text) (ls : List Listener)
    → remove_listeners (numbered next events) (ls ++ numbered next events) ≡ ls
unfolding remove_listeners
remove-numbered next [] ls = append-nil ls
remove-numbered next (event ∷ events) ls =
    ap (remove_listeners (numbered (suc next) events)) (
      off-last (record { event = event; id = next }) ls (numbered (suc next) events)
        (numbered-apart next (suc next) event events (omega arith)))
    ∙ remove-numbered (suc next) events ls

-- The function that an installation returns takes away the listeners that it added and no other,
-- whatever listeners the process had: they are the same afterwards, in the same order.
remove_listeners-install :
    (next : ℕ) (signals : Option (List Text)) (ls : List Listener)
    → remove_listeners (added next signals) (install_signal_handlers next signals ls) ≡ ls
unfolding install_signal_handlers added
remove_listeners-install next signals ls =
    ap (remove_listeners (added next signals)) (on_all-append (added next signals) ls)
    ∙ remove-numbered next
        (or_else signals default_signals
          ++ codes "unhandledRejection" ∷ codes "uncaughtException" ∷ [])
        ls
