-- ===== src/Tests/Accounts.antt =====
-- The station with a few sign-ins, a feedback, an alert and a mail that waits to be sent.
use saps_case_dockets.Prelude.{ℕ, true, Option, none, some, [], ◌∷◌, ◌++◌}
use saps_case_dockets.Text.{Text, codes}
use saps_case_dockets.Schema.{
  World, Db, AuthSession, EmailChallenge, ChallengePurpose, DeliveryState, PasswordReset, Alert,
  AlertType, AlertStatus, Severity, Notification, NotificationStatus, NotificationChannel,
  CaseEmailIntent, EmailReason, CaseFeedback, Docket, DocketStatus, CaseAssignment, PermissionCode,
  RoleCode, complaint_refused,
}
use saps_case_dockets.Authentication.{Client}
use saps_case_dockets.Authentication.Guard.{Credentials}
use saps_case_dockets.Feedback.{FeedbackRequest}
use saps_case_dockets.Alerts.{AlertRequest}
use saps_case_dockets.Administration.{StaffUpdate}
use saps_case_dockets.Intake.{StatementRequest}
use saps_case_dockets.Tests.Station.{start, person}

abbrev pub client : Client
client = record { ip = none; user_agent = none }

abbrev session : ℕ → Text → Option ℕ → Option ℕ → AuthSession
session id hash revoked next = record {
  id = id;
  user_id = 3;
  refresh_token_hash = hash;
  issued_at = 0;
  expires_at = 5000;
  last_used_at = some 0;
  revoked_at = revoked;
  replaced_by_session_id = next;
  created_from_ip = none;
  user_agent = none;
}

-- session 201 was replaced by 202, which is open; 203 is an open challenge
abbrev pub first_session : AuthSession
first_session = session 201 (codes "old") (some 1) (some 202)

abbrev pub second_session : AuthSession
second_session = session 202 (codes "new") none none

abbrev open_challenge : EmailChallenge
open_challenge = record {
  session_id = 203;
  user_id = 3;
  purpose = ChallengePurpose.login;
  recipient = codes "user@example.org";
  code_digest =
      codes "saps-email-code-v1"
      ++ 0 ∷ 0 ∷ 0 ∷ (codes "login" ++ 0 ∷ (codes "user@example.org" ++ 0 ∷ codes "123456"));
  attempted_at = 0;
  code_expires_at = 4000;
  delivery_state = DeliveryState.accepted;
}

abbrev reset_row : PasswordReset
reset_row = record {
  id = 211;
  user_id = 1;
  token_hash = codes "forgotten";
  created_at = 0;
  expires_at = 3000;
  used_at = none;
}

abbrev warning : Alert
warning = record {
  id = 301;
  station_id = 1;
  complaint_id = none;
  docket_id = none;
  alert_type = AlertType.overdue_docket;
  severity = Severity.high;
  status = AlertStatus.open_alert;
  title = codes "Overdue";
  description = codes "No entry in a month";
  assigned_to_user_id = none;
  detected_at = 0;
  due_at = none;
  acknowledged_by_user_id = none;
  acknowledged_at = none;
  resolved_by_user_id = none;
  resolved_at = none;
  resolution_notes = none;
}

abbrev mail : Notification
mail = record {
  id = 401;
  recipient_complainant_id = 31;
  complaint_id = 21;
  docket_id = none;
  channel = NotificationChannel.email;
  event_type = complaint_refused;
  subject = "Your complaint";
  message = codes "It was refused.";
  destination_encrypted = some (codes "user@example.org");
  status = NotificationStatus.pending;
  sent_at = none;
  delivered_at = none;
  failed_at = none;
  created_at = 0;
}

abbrev intent : CaseEmailIntent
intent = record {
  notification_id = 401;
  event_key = (complaint_refused, 100);
  email_digest = some (codes "email:user@example.org");
  reason = EmailReason.queued;
}

abbrev docket : Docket
docket = record {
  id = 101;
  complaint_id = 21;
  cas_number = codes "CAS-JHB-2026-000001";
  status = DocketStatus.active;
  created_from_decision_id = 100;
  opened_by_officer_id = 11;
  opened_at = 0;
  closed_at = none;
  closure_reason = none;
}

abbrev own_assignment : CaseAssignment
own_assignment = record {
  id = 501;
  docket_id = 101;
  investigating_officer_id = 13;
  assigned_by_officer_id = 12;
  assigned_at = 0;
  unassigned_at = none;
  assignment_reason = none;
  unassignment_reason = none;
}

abbrev report : ℕ → Option ℕ → CaseFeedback
report id corrects = record {
  id = id;
  docket_id = 101;
  complainant_id = 31;
  provided_by_officer_id = 13;
  feedback_type = "PROGRESS";
  subject = "Progress";
  message = codes "Nothing yet";
  supersedes_feedback_id = corrects;
  published_at = 0;
}

abbrev rows : Db → Db
rows db = record db {
  access = record db.access {
    email_auths =
        record { user_id = 3; verified_email = codes "user@example.org"; verified_at = 0 }
        ∷ record { user_id = 5; verified_email = codes "user@example.org"; verified_at = 0 }
        ∷ record { user_id = 1; verified_email = codes "user@example.org"; verified_at = 0 }
        ∷ [];
    users = person 1 ∷ person 2 ∷ person 3 ∷ person 4 ∷ person 5 ∷ [];
    complainants =
        record { id = 31; user_id = some 5; email = some (codes "user@example.org") } ∷ [];
    permissions =
        record { id = 3; code = PermissionCode.feedback_provide }
        ∷ record { id = 7; code = PermissionCode.case_add_note }
        ∷ record { id = 4; code = PermissionCode.alert_view }
        ∷ record { id = 5; code = PermissionCode.dashboard_view_station }
        ∷ record { id = 6; code = PermissionCode.docket_assign }
        ∷ [];
    role_permissions =
        record { role_id = 3; permission_id = 3 }
        ∷ record { role_id = 3; permission_id = 7 }
        ∷ record { role_id = 2; permission_id = 4 }
        ∷ record { role_id = 2; permission_id = 5 }
        ∷ record { role_id = 2; permission_id = 6 }
        ∷ [];
  };
  cases = record db.cases { dockets = docket ∷ []; assignments = own_assignment ∷ [] };
  comms = record db.comms {
    feedback = report 601 none ∷ report 602 (some 601) ∷ [];
    alerts = warning ∷ [];
    notifications = mail ∷ [];
    email_intents = intent ∷ [];
  };
  signins = record {
    sessions = first_session ∷ second_session ∷ session 203 (codes "code") none none ∷ [];
    challenges = open_challenge ∷ [];
    mfa_methods = [];
    password_resets = reset_row ∷ [];
  };
}

abbrev pub signed_in : World
signed_in = record start {
  platform = record start.platform {
    case_portal_url = codes "http://localhost/portal/";
    urlsplit = λ s. some (record {
      scheme = codes "http";
      hostname = some (codes "localhost");
      username = none;
      password = none;
      path = codes "/portal/";
      query = [];
      fragment = [];
    });
  };
  db = rows start.db;
  committed = rows start.committed;
}

-- what `jwt_encode` of the station makes of user 3 and session 202, and of the challenge 203
abbrev pub bearer : Credentials
bearer = record { scheme = codes "bearer"; credentials = 3 ∷ 202 ∷ 0 ∷ 0 ∷ 9000 ∷ [] }

abbrev pub challenge_token : Text
challenge_token = 3 ∷ 203 ∷ 2 ∷ 0 ∷ 9000 ∷ []

abbrev pub progress : FeedbackRequest
progress = record {
  feedback_type = "PROGRESS";
  subject = "Progress";
  message = codes "A witness was heard";
  supersedes_feedback_id = some 602;
}

abbrev pub seen : AlertRequest
seen = record {
  expected_status = AlertStatus.open_alert;
  status = AlertStatus.acknowledged;
  notes = none;
}

abbrev pub promotion : StaffUpdate
promotion = record {
  role = RoleCode.investigating_officer;
  station_id = 1;
  service_number = codes "S9";
  rank = codes "Captain";
  phone_number = none;
  expected_updated_at = 0;
  is_active = true;
}

abbrev pub correction : StatementRequest
correction = record { statement_text = "The bicycle was red"; expected_version = 0 }
