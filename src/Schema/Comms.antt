-- ===== src/Schema/Comms.antt =====
-- Feedback, notifications, the email outbox and the audit log: app/modules/communications/models.py,
-- communications/email_models.py and audit/models.py. The audit columns that no modelled handler
-- writes are left out.
use saps_case_dockets.Prelude.{ℕ, Bool, String, Option, List, ◌==◌}
use saps_case_dockets.Text.{Text}
use saps_case_dockets.Schema.Enums.{
  NotificationChannel, NotificationStatus, AttemptOutcome, EmailReason, CaseEvent, RoleCode,
  MailState,
}

pub record CaseFeedback : Type 0 where
  pub id : ℕ
  pub docket_id : ℕ
  pub complainant_id : ℕ
  pub provided_by_officer_id : ℕ
  pub feedback_type : String
  pub subject : String
  pub message : Text
  pub supersedes_feedback_id : Option ℕ
  pub published_at : ℕ

pub record Notification : Type 0 where
  pub id : ℕ
  pub recipient_complainant_id : ℕ
  pub complaint_id : ℕ
  pub docket_id : Option ℕ
  pub channel : NotificationChannel
  pub event_type : CaseEvent
  pub subject : String
  pub message : Text
  pub destination_encrypted : Option Text
  pub status : NotificationStatus
  pub sent_at : Option ℕ
  pub delivered_at : Option ℕ
  pub failed_at : Option ℕ
  pub created_at : ℕ

pub record NotificationAttempt : Type 0 where
  pub id : ℕ
  pub notification_id : ℕ
  pub attempt_number : ℕ
  pub provider : String
  pub outcome : AttemptOutcome
  pub error_code : Option EmailReason
  pub attempted_at : ℕ

-- `event_key` is the text `event:source`, kept as its two parts
pub record CaseEmailIntent : Type 0 where
  pub notification_id : ℕ
  pub event_key : CaseEvent × ℕ
  pub email_digest : Option Text
  pub reason : EmailReason

pub data ActorType : Type 0 where
  user system : ActorType

-- what the modelled handlers write into `event_metadata`: the reason of a queued mail, the decision
-- that was sent on and the reason given for it, or the outcome of a sending
pub data AuditMetadata : Type 0 where
  mail_reason : EmailReason → AuditMetadata
  review_reason : ℕ → Option Text → AuditMetadata
  send_state : MailState → EmailReason → AuditMetadata

-- `old_values` and `new_values` of the changes to staff accounts
pub record StaffValues : Type 0 where
  pub role : RoleCode
  pub station_id : ℕ
  pub is_active : Bool
  pub rank : Option Text
  pub service_number : Option Text

pub record AuditLog : Type 0 where
  pub id : ℕ
  pub actor_type : ActorType
  pub actor_user_id : Option ℕ
  pub action : String
  pub entity_type : String
  pub entity_id : Option ℕ
  pub station_id : Option ℕ
  pub ip_address : Option Text
  pub old_values : Option StaffValues
  pub new_values : Option StaffValues
  pub event_metadata : Option AuditMetadata
  pub occurred_at : ℕ

-- `alerts.status`
pub data AlertStatus : Type 0 where
  open_alert acknowledged resolved dismissed : AlertStatus

-- `alerts.alert_type`
pub data AlertType : Type 0 where
  non_compliant_refusal overdue_docket case_inactivity unacknowledged_escalation
        evidence_custody_exception system_compliance :
      AlertType

-- `alerts.severity`
pub data Severity : Type 0 where
  low medium high critical : Severity

pub record Alert : Type 0 where
  pub id : ℕ
  pub station_id : ℕ
  pub complaint_id : Option ℕ
  pub docket_id : Option ℕ
  pub alert_type : AlertType
  pub severity : Severity
  pub status : AlertStatus
  pub title : Text
  pub description : Text
  pub assigned_to_user_id : Option ℕ
  pub detected_at : ℕ
  pub due_at : Option ℕ
  pub acknowledged_by_user_id : Option ℕ
  pub acknowledged_at : Option ℕ
  pub resolved_by_user_id : Option ℕ
  pub resolved_at : Option ℕ
  pub resolution_notes : Option Text

abbrev pub alert_rank : AlertStatus → ℕ
alert_rank AlertStatus.open_alert = 0
alert_rank AlertStatus.acknowledged = 1
alert_rank AlertStatus.resolved = 2
alert_rank AlertStatus.dismissed = 3

abbrev pub same_alert_status : AlertStatus → AlertStatus → Bool
same_alert_status a b = alert_rank a == alert_rank b

-- The tables of what is told to people and kept for the auditors.
pub record CommsDb : Type 0 where
  pub feedback : List CaseFeedback
  pub notifications : List Notification
  pub attempts : List NotificationAttempt
  pub email_intents : List CaseEmailIntent
  pub audit_logs : List AuditLog
  pub alerts : List Alert
