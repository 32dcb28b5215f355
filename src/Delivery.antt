-- ===== src/Delivery.antt =====
-- The sender of the case mails: `process_one` and `retry` of
-- app/modules/communications/case_email.py.
pub mod Claim
use saps_case_dockets.Prelude.{
  ℕ, ◌+◌, String, Bool, true, false, not, ◌&&◌, ◌||◌, Option, none, some, List, [], ◌∷◌, ◌++◌, ◌==◌,
  is_none, if◌then◌else◌, first_where, exists_where, rows_where, update_where, max_where,
}
use saps_case_dockets.Text.{Text, codes, text_eq, starts_with, occurs}
use saps_case_dockets.Schema.{
  World, Notification, NotificationStatus, NotificationChannel, NotificationAttempt,
  CaseEmailIntent, EmailReason, MailState, AttemptOutcome, ActorType, AuditMetadata, AuditLog,
}
use saps_case_dockets.Schema.{
  mail_reason, send_state, queued, email_not_verified, email_changed, tracking_url_missing,
  send_outcome_unknown, smtp_not_configured, smtp_connection_failed, smtp_rejected,
  smtp_authentication_failed, smtp_network_blocked, email,
}
use saps_case_dockets.Tx.{
  Tx, value_error, attribute_error, invalid_token, pure, gets, or_raise, raise_if, put_comms,
  utcnow, new_id, ◌>>=◌, ◌>>◌,
}
use saps_case_dockets.Tx.Commits.{commit, session_call}
use saps_case_dockets.Notify.{verified_email, tracking_link, given_text}
use saps_case_dockets.Mail.{submit}
use saps_case_dockets.Listings.{before, ordered}

abbrev pub is_email : NotificationChannel → Bool
is_email email = true
is_email _ = false

abbrev pub is_waiting : NotificationStatus → Bool
is_waiting NotificationStatus.pending = true
is_waiting _ = false

abbrev pub is_failed : NotificationStatus → Bool
is_failed NotificationStatus.failed = true
is_failed _ = false

-- `notification_ids`, if it is given
abbrev pub is_asked : Option (List ℕ) → ℕ → Bool
is_asked none id = true
is_asked (some ids) id = exists_where (λ i. i == id) ids

-- the oldest mail that waits
unfoldable pub next_mail : World → Option (List ℕ) → Option Notification
next_mail w ids =
    first_where (λ _. true)
      (ordered (before (λ n. (n.created_at, n.id))) (
        rows_where
          (λ n.
            exists_where (λ i. i.notification_id == n.id) w.email_intents
            && (is_email n.channel && (is_waiting n.status && is_asked ids n.id)))
          w.notifications))

-- `db.add(AuditLog(actor_type='SYSTEM', entity_type='notification', ...))`
unfoldable pub mail_entry : String → ℕ → Option AuditMetadata → Tx (Unit {0})
mail_entry action notification_id metadata = do
  id ← new_id
  put_comms (λ w. record w.comms {
    audit_logs =
        w.audit_logs
        ++ record {
          id = id;
          actor_type = ActorType.system;
          actor_user_id = none;
          action = action;
          entity_type = "notification";
          entity_id = some notification_id;
          station_id = none;
          ip_address = none;
          old_values = none;
          new_values = none;
          event_metadata = metadata;
          occurred_at = w.platform.database_time w.reads;
        }
          ∷ [];
  })

-- columns of a notification, and the reason of its intent
unfoldable pub change_mail : ℕ → (Notification → Notification) → EmailReason → Tx (Unit {0})
change_mail id f reason = put_comms (λ w. record w.comms {
  notifications = update_where (λ n. n.id == id) f w.notifications;
  email_intents =
      update_where (λ i. i.notification_id == id) (λ i. record i { reason = reason })
        w.email_intents;
})

abbrev pub not_configured : Text
not_configured = codes "[tracking link not configured]"

abbrev pub same_digest : Option Text → Text → Bool
same_digest none d = false
same_digest (some e) d = text_eq e d

-- why a mail must not be sent, if it must not
unfoldable pub block_reason : World → Option Text → CaseEmailIntent → Text → Option EmailReason
block_reason w none intent message = some email_not_verified
block_reason w (some destination) intent message =
    if not (same_digest intent.email_digest (w.platform.digest (codes "email:" ++ destination)))
    then some email_changed
    else if is_none (tracking_link w.platform none) || occurs not_configured message
    then some tracking_url_missing
    else none

-- `s.split(sep)[0]`
unfoldable pub before_first : Text → Text → Text
before_first sep [] = []
before_first sep (c ∷ s) =
    let rest = before_first sep s in if starts_with sep (c ∷ s) then [] else c ∷ rest

abbrev pub footer : Text
footer = codes "\n\nSign in to view your case securely:"

-- the body with its footer made anew
unfoldable pub fresh_body : Text → Text → Text
unfolding before_first
fresh_body message link =
    before_first footer (before_first (codes "\n\nView updates securely:") message)
    ++ (codes "\n\nSign in to view your case securely: " ++ link)

abbrev pub failed_now : ℕ → Notification → Notification
failed_now now n = record n { status = NotificationStatus.failed; failed_at = some now }

unfoldable pub block_mail : Notification → EmailReason → Tx Bool
unfolding change_mail mail_entry
block_mail row reason = do
  now ← utcnow
  change_mail row.id (failed_now now) reason
  mail_entry "case_email.blocked" row.id (some (mail_reason reason))
  commit
  pure true

abbrev pub outcome_of : MailState → AttemptOutcome
outcome_of MailState.accepted = AttemptOutcome.sent
outcome_of MailState.unknown = AttemptOutcome.timeout
outcome_of _ = AttemptOutcome.rejected

abbrev pub error_of : MailState → EmailReason → Option EmailReason
error_of MailState.accepted reason = none
error_of _ reason = some reason

-- the row after the sending; an unknown outcome leaves it PROCESSING, and reads no clock
unfoldable pub settle : MailState → ℕ → EmailReason → Tx (Unit {0})
unfolding change_mail
settle MailState.accepted id reason = do
  now ← utcnow
  change_mail id (λ n. record n { status = NotificationStatus.sent; sent_at = some now }) reason
settle MailState.unknown id reason = change_mail id (λ n. n) reason
settle _ id reason = do now ← utcnow; change_mail id (failed_now now) reason

unfoldable pub add_attempt : ℕ → ℕ → MailState → EmailReason → Tx (Unit {0})
add_attempt notification_id number state reason = do
  id ← new_id
  put_comms (λ w. record w.comms {
    attempts =
        w.attempts
        ++ record {
          id = id;
          notification_id = notification_id;
          attempt_number = number;
          provider = "SMTP";
          outcome = outcome_of state;
          error_code = error_of state reason;
          attempted_at = w.platform.database_time w.reads;
        }
          ∷ [];
  })

abbrev pub claimed : Text → Notification → Notification
claimed body n = record n { message = body; status = NotificationStatus.processing }

-- the claim is committed before the message is handed over
unfoldable pub send_mail : Notification → Tx Bool
unfolding change_mail mail_entry fresh_body settle add_attempt
send_mail row = do
  sealed ← or_raise row.destination_encrypted attribute_error
  decrypted ← gets (λ w. w.platform.crypto.decrypt sealed)
  destination ← or_raise decrypted invalid_token
  found ← gets (λ w. tracking_link w.platform (some row.complaint_id))
  link ← or_raise found attribute_error
  number ←
      gets
        (λ w. max_where (λ a. a.notification_id == row.id) (λ a. a.attempt_number) w.attempts + 1)
  change_mail row.id (claimed (fresh_body row.message link)) send_outcome_unknown
  mail_entry "case_email.send_started" row.id none
  commit
  outcome ← submit destination (codes row.subject) (fresh_body row.message link) (some row.id)
  settle outcome.0 row.id outcome.1
  add_attempt row.id number outcome.0 outcome.1
  mail_entry "case_email.send_result" row.id (some (send_state outcome.0 outcome.1))
  commit
  pure true

unfoldable pub send_unless : Notification → Option EmailReason → Tx Bool
unfolding block_mail send_mail
send_unless row none = send_mail row
send_unless row (some reason) = block_mail row reason

unfoldable pub process_row : Option Notification → Tx Bool
unfolding block_reason send_unless
process_row none = pure false
process_row (some row) = do
  found ← gets (λ w. first_where (λ i. i.notification_id == row.id) w.email_intents)
  intent ← or_raise found attribute_error
  destination ← gets (λ w.
      given_text
        (verified_email w (first_where (λ c. c.id == row.recipient_complainant_id) w.complainants)))
  reason ← gets (λ w. block_reason w destination intent row.message)
  send_unless row reason

-- `process_one(db, notification_ids=ids)`
unfoldable pub process_one : Option (List ℕ) → Tx Bool
unfolding next_mail process_row
process_one ids = session_call do row ← gets (λ w. next_mail w ids); process_row row

-- the reasons of mails that were certainly not sent
abbrev pub is_unsent : EmailReason → Bool
is_unsent smtp_not_configured = true
is_unsent smtp_connection_failed = true
is_unsent smtp_rejected = true
is_unsent smtp_authentication_failed = true
is_unsent smtp_network_blocked = true
is_unsent _ = false

abbrev pub may_retry : Option Notification → Option CaseEmailIntent → Bool
may_retry none intent = false
may_retry (some row) none = false
may_retry (some row) (some intent) =
    is_email row.channel && (is_failed row.status && is_unsent intent.reason)

abbrev pub waiting : Notification → Notification
waiting n = record n { status = NotificationStatus.pending; failed_at = none }

-- `retry(db, identity)`
unfoldable pub retry : ℕ → Tx (Unit {0})
unfolding change_mail mail_entry
retry identity = session_call do
  row ← gets (λ w. first_where (λ n. n.id == identity) w.notifications)
  intent ← gets (λ w. first_where (λ i. i.notification_id == identity) w.email_intents)
  raise_if (not (may_retry row intent))
      (value_error (codes "Only definitely unsent SMTP failures can be retried"))
  change_mail identity waiting queued
  mail_entry "case_email.retry" identity none
  commit
