-- ===== src/Notify/Quiet.antt =====
-- The calls of Notify, and the tables beside those of communications.
use saps_case_dockets.Prelude.{ℕ, ◌≡◌, String, Option, none, some, List}
use saps_case_dockets.Schema.{
  World, Db, CommsDb, Complaint, Docket, CaseEvent, EmailReason, CaseEmailIntent, Notification,
  NotificationAttempt, AuditLog,
}
use saps_case_dockets.Schema.{complaint_registered, complaint_accepted, docket_created, queued}
use saps_case_dockets.Tx.{put_comms}
use saps_case_dockets.Tx.Rules.{Keeps, keeps_rules}
use saps_case_dockets.Notify.{
  audit, system_audit, event_body, enqueue_new, enqueue_unless, enqueue, enqueue_event,
  notify_complainant, failed_at_for,
}

-- what the calls of Notify write
pub record Notices : Type 0 where
  pub notifications : List Notification
  pub attempts : List NotificationAttempt
  pub email_intents : List CaseEmailIntent
  pub audit_logs : List AuditLog

abbrev pub with_notices : CommsDb → Notices → CommsDb
with_notices c n = record c {
  notifications = n.notifications;
  attempts = n.attempts;
  email_intents = n.email_intents;
  audit_logs = n.audit_logs;
}

-- `g` does not look at those tables.
abbrev pub IgnoresNotices {ℓ} : {X : Type ℓ} → (Db → X) → Type ℓ
IgnoresNotices g =
    (db : Db) (n : Notices) → g (record db { comms = with_notices db.comms n }) ≡ g db

module _ {ℓ} {X : Type ℓ} (g : Db → X) (ignores : IgnoresNotices g) where
  Keeps-comms :
      (n : World → List Notification) (a : World → List NotificationAttempt)
      (i : World → List CaseEmailIntent) (l : World → List AuditLog)
      → Keeps g (
          put_comms (λ w. record w.comms {
            notifications = n w;
            attempts = a w;
            email_intents = i w;
            audit_logs = l w;
          }))
  unfolding put_comms
  Keeps-comms n a i l = record {
    at = λ w.
        ignores w.db
          (record { notifications = n w; attempts = a w; email_intents = i w; audit_logs = l w });
  }

  pub Keeps-audit :
      (actor : ℕ) (action entity : String) (id station : Option ℕ)
      → Keeps g (audit actor action entity id station)
  unfolding audit
  Keeps-audit actor action entity id station = search (keeps_rules, Keeps-comms)

  Keeps-system_audit :
      (action entity : String) (id station : Option ℕ) (r : EmailReason)
      → Keeps g (system_audit action entity id station r)
  unfolding system_audit
  Keeps-system_audit action entity id station r = search (keeps_rules, Keeps-comms)

  Keeps-event_body :
      (c : Complaint) (d : Option Docket) (e : CaseEvent) (id : ℕ) → Keeps g (event_body c d e id)
  unfolding event_body
  Keeps-event_body c d complaint_registered id = search keeps_rules
  Keeps-event_body c d complaint_accepted id = search keeps_rules
  Keeps-event_body c d _ id = search keeps_rules

  Keeps-failed_at_for : (r : EmailReason) → Keeps g (failed_at_for r)
  Keeps-failed_at_for queued = search keeps_rules
  Keeps-failed_at_for _ = search keeps_rules

  Keeps-enqueue_new :
      (c : Complaint) (d : Option ℕ) (e : CaseEvent) (id : ℕ) → Keeps g (enqueue_new c d e id)
  unfolding enqueue_new
  Keeps-enqueue_new c d e id =
      search (keeps_rules, Keeps-comms, Keeps-event_body, Keeps-failed_at_for, Keeps-system_audit)
        depth 20

  Keeps-enqueue_unless :
      (o : Option CaseEmailIntent) (c : Complaint) (d : Option ℕ) (e : CaseEvent) (id : ℕ)
      → Keeps g (enqueue_unless o c d e id)
  unfolding enqueue_unless
  Keeps-enqueue_unless none c d e id = Keeps-enqueue_new c d e id
  Keeps-enqueue_unless (some intent) c d e id = search keeps_rules

  pub Keeps-enqueue :
      (c : Complaint) (d : Option ℕ) (e : CaseEvent) (id : ℕ) → Keeps g (enqueue c d e id)
  unfolding enqueue
  Keeps-enqueue c d e id = search (keeps_rules, Keeps-enqueue_unless)

  Keeps-enqueue_event :
      (c : Complaint) (d : Option ℕ) (e : CaseEvent) → Keeps g (enqueue_event c d e)
  unfolding enqueue_event
  Keeps-enqueue_event c d complaint_registered = search (keeps_rules, Keeps-enqueue)
  Keeps-enqueue_event c (some d) docket_created = search (keeps_rules, Keeps-enqueue)
  Keeps-enqueue_event c none docket_created = search keeps_rules
  Keeps-enqueue_event c d _ = search keeps_rules

  pub Keeps-notify_complainant :
      (c : Complaint) (e : CaseEvent) (d : Option ℕ) (actor : ℕ)
      → Keeps g (notify_complainant c e d actor)
  unfolding notify_complainant
  Keeps-notify_complainant c e d actor =
      search (keeps_rules, Keeps-comms, Keeps-audit, Keeps-enqueue_event) depth 20
