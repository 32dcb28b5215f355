-- ===== src/Schema/Enums.antt =====
-- The controlled values of the models' check constraints, with their equality tests.
use saps_case_dockets.Prelude.{ℕ, ◌+◌, ◌≡◌, Bool, true, ◌==◌, arith}
use saps_case_dockets.Text.{Text, codes}

-- `complaints.status`
pub data ComplaintStatus : Type 0 where
  submitted under_review accepted refused escalated docket_created : ComplaintStatus

-- `complaints.channel`
pub data IntakeChannel : Type 0 where
  online in_station : IntakeChannel

-- `dockets.status`
pub data DocketStatus : Type 0 where
  pending_approval approved active on_hold closed archived : DocketStatus

-- `complaint_decisions.decision`
pub data Verdict : Type 0 where
  accepted refused : Verdict

-- `refusal_escalations.target`
pub data Target : Type 0 where
  station_commander ncc : Target

-- `refusal_escalations.status`
pub data EscalationStatus : Type 0 where
  open_escalation acknowledged resolved : EscalationStatus

-- `docket_approvals.decision`
pub data ApprovalDecision : Type 0 where
  approved returned_for_correction : ApprovalDecision

-- `evidence_items.status`
pub data EvidenceStatus : Type 0 where
  registered in_custody transferred under_analysis released disposed : EvidenceStatus

-- `evidence_custody_events.event_type`
pub data CustodyEventType : Type 0 where
  registered collected received transferred accessed analysis_started analysis_completed released
        disposed :
      CustodyEventType

-- `identifier_counters.counter_type`
pub data CounterType : Type 0 where
  complaint_counter cas_counter evidence_counter document_counter : CounterType

-- `email_auth_challenges.purpose`
pub data ChallengePurpose : Type 0 where
  register login transition : ChallengePurpose

-- `email_auth_challenges.delivery_state`
pub data DeliveryState : Type 0 where
  pending accepted failed : DeliveryState

-- The `type` of a signed token.
pub data TokenType : Type 0 where
  access mfa_login email_code : TokenType
  other_type : ℕ → TokenType

-- What the shared SMTP transport reports.
pub data MailState : Type 0 where
  accepted rejected blocked unknown : MailState

-- The codes of the roles that the handlers name.
pub data RoleCode : Type 0 where
  charge_officer station_commander investigating_officer ncc_officer complainant_role
        system_administrator saps_management :
      RoleCode
  other_role : ℕ → RoleCode

-- The codes of the permissions that the handlers name.
pub data PermissionCode : Type 0 where
  case_update_status case_close case_track_own docket_view_assigned feedback_provide
        complaint_register complaint_view_station case_add_note alert_view dashboard_view_all
        dashboard_view_station docket_assign confirmation_download complaint_view_own :
      PermissionCode
  other_permission : ℕ → PermissionCode

-- `notifications.channel`
pub data NotificationChannel : Type 0 where
  sms email in_app : NotificationChannel

-- `notifications.status`
pub data NotificationStatus : Type 0 where
  pending processing sent delivered failed cancelled : NotificationStatus

-- `notification_attempts.outcome`
pub data AttemptOutcome : Type 0 where
  sent failed rejected timeout : AttemptOutcome

-- `case_email_intents.reason`, and the reasons that the mail module reports
pub data EmailReason : Type 0 where
  queued email_not_verified tracking_url_missing email_changed send_outcome_unknown
        smtp_not_configured smtp_connection_failed smtp_rejected smtp_authentication_failed
        smtp_network_blocked smtp_accepted :
      EmailReason

-- The `event_type` of a notification.
pub data CaseEvent : Type 0 where
  complaint_registered complaint_accepted complaint_refused docket_created docket_approved
        docket_assigned feedback_published meeting_requested case_active case_on_hold case_closed :
      CaseEvent

-- Each enumeration is compared by the position of its values.
abbrev pub complaint_rank : ComplaintStatus → ℕ
complaint_rank ComplaintStatus.submitted = 0
complaint_rank ComplaintStatus.under_review = 1
complaint_rank ComplaintStatus.accepted = 2
complaint_rank ComplaintStatus.refused = 3
complaint_rank ComplaintStatus.escalated = 4
complaint_rank ComplaintStatus.docket_created = 5

abbrev pub docket_rank : DocketStatus → ℕ
docket_rank DocketStatus.pending_approval = 0
docket_rank DocketStatus.approved = 1
docket_rank DocketStatus.active = 2
docket_rank DocketStatus.on_hold = 3
docket_rank DocketStatus.closed = 4
docket_rank DocketStatus.archived = 5

abbrev pub same_docket_status : DocketStatus → DocketStatus → Bool
same_docket_status a b = docket_rank a == docket_rank b

pub same_docket_status_sound : (a b : DocketStatus) → same_docket_status a b ≡ true → a ≡ b
same_docket_status_sound a b h = ground arith

abbrev pub target_rank : Target → ℕ
target_rank Target.station_commander = 0
target_rank Target.ncc = 1

abbrev pub same_target : Target → Target → Bool
same_target a b = target_rank a == target_rank b

abbrev pub counter_rank : CounterType → ℕ
counter_rank complaint_counter = 0
counter_rank cas_counter = 1
counter_rank evidence_counter = 2
counter_rank document_counter = 3

abbrev pub same_counter : CounterType → CounterType → Bool
same_counter a b = counter_rank a == counter_rank b

abbrev pub token_rank : TokenType → ℕ
token_rank TokenType.access = 0
token_rank TokenType.mfa_login = 1
token_rank TokenType.email_code = 2
token_rank (TokenType.other_type n) = 3 + n

abbrev pub same_token_type : TokenType → TokenType → Bool
same_token_type a b = token_rank a == token_rank b

abbrev pub role_rank : RoleCode → ℕ
role_rank RoleCode.charge_officer = 0
role_rank RoleCode.station_commander = 1
role_rank RoleCode.investigating_officer = 2
role_rank RoleCode.ncc_officer = 3
role_rank RoleCode.complainant_role = 4
role_rank RoleCode.system_administrator = 5
role_rank RoleCode.saps_management = 6
role_rank (RoleCode.other_role n) = 7 + n

abbrev pub same_role : RoleCode → RoleCode → Bool
same_role a b = role_rank a == role_rank b

abbrev pub permission_rank : PermissionCode → ℕ
permission_rank case_update_status = 0
permission_rank case_close = 1
permission_rank case_track_own = 2
permission_rank docket_view_assigned = 3
permission_rank feedback_provide = 4
permission_rank complaint_register = 5
permission_rank complaint_view_station = 6
permission_rank case_add_note = 7
permission_rank alert_view = 8
permission_rank dashboard_view_all = 9
permission_rank dashboard_view_station = 10
permission_rank docket_assign = 11
permission_rank confirmation_download = 12
permission_rank complaint_view_own = 13
permission_rank (other_permission n) = 14 + n

abbrev pub same_permission : PermissionCode → PermissionCode → Bool
same_permission a b = permission_rank a == permission_rank b

abbrev pub event_rank : CaseEvent → ℕ
event_rank complaint_registered = 0
event_rank complaint_accepted = 1
event_rank complaint_refused = 2
event_rank docket_created = 3
event_rank docket_approved = 4
event_rank docket_assigned = 5
event_rank feedback_published = 6
event_rank meeting_requested = 7
event_rank case_active = 8
event_rank case_on_hold = 9
event_rank case_closed = 10

abbrev pub same_event : CaseEvent → CaseEvent → Bool
same_event a b = event_rank a == event_rank b

-- The source's spelling of a docket's status, as the mails print it.
unfoldable pub docket_status_text : DocketStatus → Text
docket_status_text DocketStatus.pending_approval = codes "PENDING_APPROVAL"
docket_status_text DocketStatus.approved = codes "APPROVED"
docket_status_text DocketStatus.active = codes "ACTIVE"
docket_status_text DocketStatus.on_hold = codes "ON_HOLD"
docket_status_text DocketStatus.closed = codes "CLOSED"
docket_status_text DocketStatus.archived = codes "ARCHIVED"

-- The source's spelling of a complaint's status, as the error details print it.
unfoldable pub complaint_status_text : ComplaintStatus → Text
complaint_status_text ComplaintStatus.submitted = codes "SUBMITTED"
complaint_status_text ComplaintStatus.under_review = codes "UNDER_REVIEW"
complaint_status_text ComplaintStatus.accepted = codes "ACCEPTED"
complaint_status_text ComplaintStatus.refused = codes "REFUSED"
complaint_status_text ComplaintStatus.escalated = codes "ESCALATED"
complaint_status_text ComplaintStatus.docket_created = codes "DOCKET_CREATED"
