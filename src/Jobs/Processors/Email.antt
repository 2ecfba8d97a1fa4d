-- ===== src/Jobs/Processors/Email.antt =====
-- src/jobs/definitions/send-email.job.ts: the demonstration provider and the processor.
pub mod Laws
use queue_worker_kit.Prelude.{
  Text, codes, text_eq, any, map, ends_with, ◌++◌, List, [], ◌∷◌, Bool, true, false, Option, none,
  some, if◌then◌else◌,
}
use queue_worker_kit.Values.{
  KitError, undefined, kit, non_retryable, transient, Completion, normal, throw, Host,
}
use queue_worker_kit.Utils.Sleep.{Signal, Wake, slept}

pub record SendEmailPayload : Type 0 where
  pub to : Text
  pub template : Text
  pub user_id : Text

pub record SendEmailResult : Type 0 where
  pub delivered : Bool
  pub provider_message_id : Text
  pub template : Text

abbrev pub known_templates : List Text
known_templates = map codes ("welcome" ∷ "password-reset" ∷ "receipt" ∷ "invite" ∷ [])

abbrev pub is_known : Text → Bool
is_known template = any (text_eq template) known_templates

abbrev pub unknown_template : SendEmailPayload → KitError
unknown_template message =
    non_retryable (codes "Unknown email template \"" ++ (message.template ++ codes "\"")) undefined

abbrev pub temporarily_rejected : KitError
temporarily_rejected = transient (codes "Email provider temporarily rejected the request") undefined

-- The provider's `send`; `stamp` is `Date.now().toString(36)`.
after_sleep : Text → SendEmailPayload → Option (Completion (Unit {0})) → Option (Completion Text)
after_sleep stamp message none = none
after_sleep stamp message (some (throw v)) = some (throw v)
after_sleep stamp message (some (normal u)) = some (
    if ends_with message.to (codes "@example.invalid")
    then throw (kit temporarily_rejected)
    else normal (codes "demo_" ++ (message.user_id ++ (codes "_" ++ stamp))))

unfoldable pub send : Host → Signal → Text → SendEmailPayload → List Wake → Option (Completion Text)
unfolding after_sleep slept
send host signal stamp message wakes =
    if is_known message.template
    then after_sleep stamp message (slept host signal wakes)
    else some (throw (kit (unknown_template message)))

delivered : Text → Option (Completion Text) → Option (Completion SendEmailResult)
delivered template none = none
delivered template (some (throw v)) = some (throw v)
delivered template (some (normal id)) =
    some (normal (record { delivered = true; provider_message_id = id; template = template }))

-- The processor, with the demonstration provider.
unfoldable pub process_email :
    Host → Signal → Text → SendEmailPayload → List Wake → Option (Completion SendEmailResult)
unfolding delivered
process_email host signal stamp message wakes =
    delivered message.template (send host signal stamp message wakes)
