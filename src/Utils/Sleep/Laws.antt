-- ===== src/Utils/Sleep/Laws.antt =====
-- How a sleep settles, and what it leaves behind.
use queue_worker_kit.Prelude.{
  ◌≡◌, refl, List, [], ◌∷◌, Bool, true, false, Option, none, some, if◌then◌else◌, arith, is_some,
  inl, inr, Bool-cases,
}
use queue_worker_kit.Values.{Completion, normal, throw, Host}
use queue_worker_kit.Utils.Sleep.{
  Signal, Sleep, start, Wake, timer_fires, abort, wake, run, abort_reason,
}

-- The first event that reaches the sleep: an abort reaches it only through a signal.
abbrev pub first_wake : Host → Bool → List Wake → Option (Completion (Unit {0}))
first_wake host watched [] = none
first_wake host watched (timer_fires ∷ es) = some (normal tt)
first_wake host true (abort reason ∷ es) = some (throw (abort_reason host reason))
first_wake host false (abort reason ∷ es) = first_wake host false es

abbrev pub expected : Host → Option Signal → List Wake → Option (Completion (Unit {0}))
expected host none es = first_wake host false es
expected host (some signal) es =
    if signal.aborted
    then some (throw (abort_reason host signal.reason))
    else first_wake host true es

abbrev IsSettled : Sleep → Completion (Unit {0}) → Type 0
IsSettled s c = (s.settled ≡ some c) × (s.timer ≡ false) × (s.listener ≡ false)

run-IsSettled :
    (host : Host) (s : Sleep) (c : Completion (Unit {0})) (es : List Wake)
    → IsSettled s c
    → IsSettled (run host s es) c
unfolding run wake
run-IsSettled host s c [] h = h
run-IsSettled host s c (timer_fires ∷ es) h =
    run-IsSettled host (wake host s timer_fires) c es (ground arith)
run-IsSettled host s c (abort r ∷ es) h =
    run-IsSettled host (wake host s (abort r)) c es (ground arith)

abbrev pub Outcome : Sleep → Option (Completion (Unit {0})) → Type 0
Outcome s expected =
    (s.settled ≡ expected) × (is_some expected ≡ true → (s.timer ≡ false) × (s.listener ≡ false))

abbrev waiting : Bool → Sleep
waiting watched = record { settled = none; timer = true; listener = watched }

run-waiting :
    (host : Host) (watched : Bool) (es : List Wake)
    → Outcome (run host (waiting watched) es) (first_wake host watched es)
unfolding run wake
run-waiting host watched [] = (refl, λ h. cc)
run-waiting host watched (timer_fires ∷ es) =
    let h =
      run-IsSettled host (wake host (waiting watched) timer_fires) (normal tt) es
        (refl, refl, refl) in
    (h.0, λ _. (h.1, h.2))
run-waiting host true (abort r ∷ es) =
    let h =
      run-IsSettled host (wake host (waiting true) (abort r)) (throw (abort_reason host r)) es
        (refl, refl, refl) in
    (h.0, λ _. (h.1, h.2))
run-waiting host false (abort r ∷ es) = run-waiting host false es

-- A sleep settles by the first event that reaches it: at once if its signal is aborted already,
-- else by the timer or by an abort of its signal, and no later event changes that. Once it has
-- settled, it leaves no timer and no abort listener behind.
pub run-start :
    (host : Host) (signal : Option Signal) (es : List Wake)
    → Outcome (run host (start host signal) es) (expected host signal es)
unfolding start
run-start host none es = run-waiting host false es
run-start host (some signal) es = elim (Bool-cases signal.aborted) [
  | inl aborted ↦
      let e = abort_reason host signal.reason in
      let s : Sleep = record { settled = some (throw e); timer = false; listener = false } in
      let h = run-IsSettled host s (throw e) es (refl, refl, refl) in
      simp aborted (h.0, λ _. (h.1, h.2))
  | inr live ↦ simp live (run-waiting host true es)
]
