-- ===== src/Jobs/Processors/Email/Laws.antt =====
-- Every outcome of the demonstration provider, and which of its errors are retried.
use queue_worker_kit.Prelude.{
  ◌≡◌, ◌⊎◌, inl, inr, refl, Text, codes, ends_with, ◌++◌, List, true, false, Bool-cases, Option,
  none, some,
}
use queue_worker_kit.Values.{Value, kit, Completion, normal, throw, Host, kit_non_retryable}
use queue_worker_kit.Errors.{classify_error, retryable_class, non_retryable_class}
use queue_worker_kit.Errors.Laws.{classify_error-kit}
use queue_worker_kit.Utils.Sleep.{Signal, Wake, slept}
use queue_worker_kit.Jobs.Processors.Email.{
  SendEmailPayload, is_known, unknown_template, temporarily_rejected, after_sleep, send,
}

-- The cases of an attempt to send, by the template, the sleep and the recipient.
pub data SendCase (host : Host) (signal : Signal) (stamp : Text) (message : SendEmailPayload)
    (wakes : List Wake) : Type 0 where
  refused :
      (v : Value)
      → is_known message.template ≡ false
      → send host signal stamp message wakes ≡ some (throw v)
      → classify_error host v ≡ normal non_retryable_class
      → SendCase host signal stamp message wakes
  waiting :
      is_known message.template ≡ true
      → slept host signal wakes ≡ none
      → send host signal stamp message wakes ≡ none
      → SendCase host signal stamp message wakes
  aborted :
      (v : Value)
      → is_known message.template ≡ true
      → slept host signal wakes ≡ some (throw v)
      → send host signal stamp message wakes ≡ some (throw v)
      → SendCase host signal stamp message wakes
  rejected :
      (v : Value)
      → is_known message.template ≡ true
      → slept host signal wakes ≡ some (normal tt)
      → ends_with message.to (codes "@example.invalid") ≡ true
      → send host signal stamp message wakes ≡ some (throw v)
      → classify_error host v ≡ normal retryable_class
      → SendCase host signal stamp message wakes
  sent :
      is_known message.template ≡ true
      → slept host signal wakes ≡ some (normal tt)
      → ends_with message.to (codes "@example.invalid") ≡ false
      → send host signal stamp message wakes
        ≡ some (normal (codes "demo_" ++ (message.user_id ++ (codes "_" ++ stamp))))
      → SendCase host signal stamp message wakes

settled-cases :
    (o : Option (Completion (Unit {0})))
    → (o ≡ none) ⊎ (((v : Value) × (o ≡ some (throw v))) ⊎ (o ≡ some (normal tt)))
settled-cases none = inl refl
settled-cases (some (throw v)) = inr (inl (v, refl))
settled-cases (some (normal u)) = inr (inr refl)

-- Every attempt to send is in one of five cases. An unknown template is refused at once, whatever
-- the signal and the timer do, with an error that is not retried. With a known one, the attempt
-- waits as long as its sleep, ends with the reason of an abort, and after the sleep either fails
-- with an error that is retried, exactly for recipients in the reserved domain, or is sent.
send-SendCase :
    (host : Host) (signal : Signal) (stamp : Text) (message : SendEmailPayload) (wakes : List Wake)
    → SendCase host signal stamp message wakes
unfolding send after_sleep kit_non_retryable
send-SendCase host signal stamp message wakes = elim (Bool-cases (is_known message.template)) [
  | inr n ↦
      refused (kit (unknown_template message)) n (rw n refl)
        (classify_error-kit host (unknown_template message))
  | inl y ↦ elim (settled-cases (slept host signal wakes)) [
    | inl e ↦ waiting y e (rw (y, e) refl)
    | inr (inl (v, e)) ↦ aborted v y e (rw (y, e) refl)
    | inr (inr e) ↦ elim (Bool-cases (ends_with message.to (codes "@example.invalid"))) [
      | inl t ↦
          rejected (kit temporarily_rejected) y e t (rw (y, e, t) refl)
            (classify_error-kit host temporarily_rejected)
      | inr f ↦ sent y e f (rw (y, e, f) refl)
    ]
  ]
]
