-- ===== src/Notify.antt =====
-- What a workflow tells people within its own transaction: the audit entries, the in-app
-- notification (app/modules/communications/notifications.py) and the email outbox
-- (app/modules/communications/case_email.py).
pub mod Quiet
pub mod Outbox
use saps_case_dockets.Prelude.{
  ℕ, String, Bool, true, false, not, ◌&&◌, ◌||◌, Option, none, some, List, [], ◌∷◌, ◌++◌, ◌==◌,
  is_none, is_some, if◌then◌else◌, first_where, exists_where,
}
use saps_case_dockets.Text.{Text, codes, text_eq, occurs}
use saps_case_dockets.Schema.{
  World, Platform, Db, User, Station, Complainant, UserEmailAuth, Complaint, ComplaintStatus,
  Docket, CaseFeedback, Notification, NotificationAttempt, CaseEmailIntent, CaseEvent,
  NotificationStatus, NotificationChannel, AttemptOutcome, EmailReason, ActorType, AuditLog,
  SplitUrl, same_event, docket_status_text,
}
use saps_case_dockets.Schema.{
  complaint_registered, complaint_accepted, complaint_refused, docket_created, docket_approved,
  docket_assigned, feedback_published, meeting_requested, case_active, case_on_hold, case_closed,
  mail_reason, queued, email_not_verified, tracking_url_missing, user, system, email, in_app,
  escalated,
}
use saps_case_dockets.Tx.{
  Tx, value_error, attribute_error, raise, pure, gets, or_raise, put_comms, new_id, utcnow, ◌>>=◌,
  ◌>>◌,
}

-- `db.add(AuditLog(actor_type='USER', ...))`
unfoldable pub audit : ℕ → String → String → Option ℕ → Option ℕ → Tx (Unit {0})
audit actor action entity_type entity_id station_id = do
  id ← new_id
  put_comms (λ w. record w.comms {
    audit_logs =
        w.audit_logs
        ++ record {
          id = id;
          actor_type = user;
          actor_user_id = some actor;
          action = action;
          entity_type = entity_type;
          entity_id = entity_id;
          station_id = station_id;
          ip_address = none;
          old_values = none;
          new_values = none;
          event_metadata = none;
          occurred_at = w.platform.database_time w.reads;
        }
          ∷ [];
  })

-- `db.add(AuditLog(actor_type='SYSTEM', ...))`
unfoldable pub system_audit : String → String → Option ℕ → Option ℕ → EmailReason → Tx (Unit {0})
system_audit action entity_type entity_id station_id reason = do
  id ← new_id
  put_comms (λ w. record w.comms {
    audit_logs =
        w.audit_logs
        ++ record {
          id = id;
          actor_type = system;
          actor_user_id = none;
          action = action;
          entity_type = entity_type;
          entity_id = entity_id;
          station_id = station_id;
          ip_address = none;
          old_values = none;
          new_values = none;
          event_metadata = some (mail_reason reason);
          occurred_at = w.platform.database_time w.reads;
        }
          ∷ [];
  })

-- Python's truth of an optional text: an empty one counts as missing
abbrev pub given_text : Option Text → Option Text
given_text none = none
given_text (some []) = none
given_text (some (c ∷ s)) = some (c ∷ s)

-- the address on which account, verified proof and person agree
abbrev agreed : Platform → Text → UserEmailAuth → Text → Option Text
agreed p address proof person_email =
    let a = p.casefold (p.strip address) in
    if text_eq a (p.casefold (p.strip proof.verified_email))
      && text_eq (p.casefold (p.strip proof.verified_email)) (p.casefold (p.strip person_email))
    then some a
    else none

abbrev account_email : Platform → Option User → Option UserEmailAuth → Text → Option Text
account_email p none proof person_email = none
account_email p (some account) none person_email = none
account_email p (some account) (some proof) person_email = elim (given_text (some account.email)) [
  | none ↦ none
  | some address ↦ if account.is_active then agreed p address proof person_email else none
]

abbrev person_email_of : World → Complainant → Option Text
person_email_of w person = elim person.user_id [
  | none ↦ none
  | some user_id ↦ elim (given_text person.email) [
    | none ↦ none
    | some address ↦
        account_email w.platform (first_where (λ u. u.id == user_id) w.users)
          (first_where (λ proof. proof.user_id == user_id) w.email_auths) address
  ]
]

-- `verified_email(db, person)`
unfoldable pub verified_email : World → Option Complainant → Option Text
verified_email w none = none
verified_email w (some person) = person_email_of w person

abbrev is_local_host : Option Text → Bool
is_local_host none = false
is_local_host (some h) =
    text_eq h (codes "localhost") || text_eq h (codes "127.0.0.1") || text_eq h (codes "::1")

abbrev has_text : Option Text → Bool
has_text none = false
has_text (some []) = false
has_text (some (c ∷ s)) = true

abbrev is_portal : Platform → SplitUrl → Bool
is_portal p url =
    let local = not (text_eq p.environment (codes "production")) && is_local_host url.hostname in
    (text_eq url.scheme (codes "https") || (local && text_eq url.scheme (codes "http")))
    && has_text url.hostname
    && not (
        has_text url.username
        || has_text url.password
        || has_text (some url.query)
        || has_text (some url.fragment)
        || not (text_eq url.path (codes "/portal/")))

-- `tracking_link(complaint_id)`; `urlsplit` that raises ValueError gives no link
unfoldable pub tracking_link : Platform → Option ℕ → Option Text
tracking_link p complaint_id = elim (p.urlsplit p.case_portal_url) [
  | none ↦ none
  | some url ↦
      if is_portal p url
      then some (
          p.case_portal_url
          ++ elim complaint_id [ none ↦ [] | some id ↦ codes "#complaint=" ++ p.uuid_text id ])
      else none
]

abbrev outcome_text : ComplaintStatus → Text
outcome_text escalated = codes "A refusal was recorded and escalated for review"
outcome_text _ = codes "A refusal was recorded"

abbrev case_status_body : Text → Text → Text
case_status_body reference status =
    codes "The case status for complaint "
    ++ (reference ++ (codes " changed to " ++ (status ++ codes ".")))

-- the `if event == ...` chain of `enqueue`
unfoldable pub event_body : Complaint → Option Docket → CaseEvent → ℕ → Tx Text
event_body complaint docket complaint_registered source_id = do
  found ← gets (λ w. first_where (λ s. s.id == complaint.station_id) w.stations)
  station ← or_raise found attribute_error
  pure (
      codes "Complaint "
      ++ (complaint.reference_number
          ++ (codes " was submitted to " ++ (station.name ++ codes ". Status: SUBMITTED."))))
event_body complaint docket docket_created source_id = pure (
    codes "A docket was created for complaint "
    ++ (complaint.reference_number ++ codes ". Station Commander approval is pending."))
event_body complaint docket docket_approved source_id = do
  d ← or_raise docket attribute_error
  pure (
      codes "Complaint "
      ++ (complaint.reference_number
          ++ (codes " was approved by the Station Commander. CAS number: "
              ++ (d.cas_number ++ codes "."))))
event_body complaint docket docket_assigned source_id = do
  d ← or_raise docket attribute_error
  pure (
      codes "An investigator has been assigned to complaint "
      ++ (complaint.reference_number ++ (codes ". CAS number: " ++ (d.cas_number ++ codes "."))))
event_body complaint docket feedback_published source_id = pure (
    codes "An official update is available for complaint "
    ++ (complaint.reference_number ++ codes "."))
event_body complaint docket meeting_requested source_id = do
  found ← gets (λ w. first_where (λ f. f.id == source_id) w.feedback)
  invitation ← or_raise found attribute_error
  pure (codes "Complaint " ++ (complaint.reference_number ++ (codes ": " ++ invitation.message)))
event_body complaint docket case_active source_id =
    pure (case_status_body complaint.reference_number (codes "ACTIVE"))
event_body complaint docket case_on_hold source_id =
    pure (case_status_body complaint.reference_number (codes "ON_HOLD"))
event_body complaint docket case_closed source_id =
    pure (case_status_body complaint.reference_number (codes "CLOSED"))
event_body complaint docket complaint_refused source_id = pure (
    outcome_text complaint.status
    ++ (codes " for complaint " ++ (complaint.reference_number ++ codes ".")))
event_body complaint docket complaint_accepted source_id =
    raise (value_error (codes "Unsupported case email event"))

-- the CAS number, unless the body already names it, and the status of the docket
abbrev pub docket_suffix : Option Docket → Text → Text
docket_suffix none body = body
docket_suffix (some docket) body =
    let named =
      if occurs docket.cas_number body
      then body
      else body ++ (codes " CAS number: " ++ (docket.cas_number ++ codes ".")) in
    named ++ (codes " Case status: " ++ (docket_status_text docket.status ++ codes "."))

abbrev pub link_text : Option Text → Text
link_text none = codes "[tracking link not configured]"
link_text (some link) = link

unfoldable pub queue_reason : Option Text → Option Text → EmailReason
queue_reason none link = email_not_verified
queue_reason (some address) none = tracking_url_missing
queue_reason (some address) (some link) = queued

abbrev pub status_for : EmailReason → NotificationStatus
status_for queued = NotificationStatus.pending
status_for _ = NotificationStatus.failed

abbrev map_text {ℓ κ} : {A : Type ℓ} {B : Type κ} → (A → B) → Option A → Option B
map_text f none = none
map_text f (some a) = some (f a)

abbrev pub failed_at_for : EmailReason → Tx (Option ℕ)
failed_at_for queued = pure none
failed_at_for _ = do now ← utcnow; pure (some now)

abbrev pub find_docket : World → Option ℕ → Option Docket
find_docket w none = none
find_docket w (some docket_id) = first_where (λ d. d.id == docket_id) w.dockets

-- the part of `enqueue` that runs when the key is new
unfoldable pub enqueue_new : Complaint → Option ℕ → CaseEvent → ℕ → Tx ℕ
unfolding event_body verified_email tracking_link queue_reason
enqueue_new complaint docket_id event source_id = do
  docket ← gets (λ w. find_docket w docket_id)
  body ← event_body complaint docket event source_id
  link ← gets (λ w. tracking_link w.platform (some complaint.id))
  destination ← gets (λ w.
      given_text
        (verified_email w (first_where (λ c. c.id == complaint.complainant_id) w.complainants)))
  let reason = queue_reason destination link
  id ← new_id
  failed_at ← failed_at_for reason
  p ← gets (λ w. w.platform)
  put_comms (λ w. record w.comms {
    notifications =
        w.notifications
        ++ record {
          id = id;
          recipient_complainant_id = complaint.complainant_id;
          complaint_id = complaint.id;
          docket_id = docket_id;
          channel = email;
          event_type = event;
          subject = "SAPS complaint update";
          message =
              docket_suffix docket body
              ++ (codes "\n\nSign in to view your case securely: " ++ link_text link);
          destination_encrypted = map_text p.encrypt destination;
          status = status_for reason;
          sent_at = none;
          delivered_at = none;
          failed_at = failed_at;
          created_at = w.platform.database_time w.reads;
        }
          ∷ [];
    email_intents =
        w.email_intents
        ++ record {
          notification_id = id;
          event_key = (event, source_id);
          email_digest = map_text (λ d. p.digest (codes "email:" ++ d)) destination;
          reason = reason;
        }
          ∷ [];
  })
  system_audit "case_email.queued" "notification" (some id) (some complaint.station_id) reason
  pure id

abbrev pub has_key : CaseEvent → ℕ → CaseEmailIntent → Bool
has_key event source_id intent =
    same_event intent.event_key.0 event && intent.event_key.1 == source_id

-- `if existing: return existing`
unfoldable pub enqueue_unless : Option CaseEmailIntent → Complaint → Option ℕ → CaseEvent → ℕ → Tx ℕ
unfolding enqueue_new
enqueue_unless (some intent) complaint docket_id event source_id = pure intent.notification_id
enqueue_unless none complaint docket_id event source_id =
    enqueue_new complaint docket_id event source_id

-- `enqueue(db, complaint, docket_id, event, source_id)`
unfoldable pub enqueue : Complaint → Option ℕ → CaseEvent → ℕ → Tx ℕ
unfolding enqueue_unless
enqueue complaint docket_id event source_id = do
  existing ← gets (λ w. first_where (has_key event source_id) w.email_intents)
  enqueue_unless existing complaint docket_id event source_id

-- `if event_type in {'complaint.registered', 'docket.created'}: enqueue(...)`; the handlers pass
-- the docket with every `docket.created`
unfoldable pub enqueue_event : Complaint → Option ℕ → CaseEvent → Tx (Unit {0})
unfolding enqueue
enqueue_event complaint docket_id complaint_registered =
    enqueue complaint docket_id complaint_registered complaint.id >> pure tt
enqueue_event complaint (some docket_id) docket_created =
    enqueue complaint (some docket_id) docket_created docket_id >> pure tt
enqueue_event complaint none docket_created =
    raise (value_error (codes "docket.created: no docket"))
enqueue_event complaint docket_id _ = pure tt

-- `notify_complainant(db, complaint, event_type, docket_id=, actor_user_id=)`
unfoldable pub notify_complainant : Complaint → CaseEvent → Option ℕ → ℕ → Tx (Unit {0})
unfolding enqueue_event
notify_complainant complaint event_type docket_id actor_user_id = do
  now ← utcnow
  id ← new_id
  attempt_id ← new_id
  put_comms (λ w. record w.comms {
    notifications =
        w.notifications
        ++ record {
          id = id;
          recipient_complainant_id = complaint.complainant_id;
          complaint_id = complaint.id;
          docket_id = docket_id;
          channel = in_app;
          event_type = event_type;
          subject = "Case update";
          message = codes "An update is available. Sign in to view your case.";
          destination_encrypted = none;
          status = NotificationStatus.delivered;
          sent_at = some now;
          delivered_at = some now;
          failed_at = none;
          created_at = now;
        }
          ∷ [];
    attempts =
        w.attempts
        ++ record {
          id = attempt_id;
          notification_id = id;
          attempt_number = 1;
          provider = "IN_APP";
          outcome = AttemptOutcome.sent;
          error_code = none;
          attempted_at = now;
        }
          ∷ [];
  })
  audit actor_user_id "notification.delivered" "notification" (some id) (some complaint.station_id)
  enqueue_event complaint docket_id event_type
