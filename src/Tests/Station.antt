-- ===== src/Tests/Station.antt =====
-- A station with its officers and one submitted complaint, on which the workflow is run.
use saps_case_dockets.Prelude.{ℕ, zero, suc, ◌+◌, true, false, Option, none, some, [], ◌∷◌}
use saps_case_dockets.Text.{Text, codes, text_eq}
use saps_case_dockets.Schema.{
  World, Platform, Db, Claims, TokenType, token_rank, User, Station, Officer, RoleCode,
  PermissionCode, IntakeChannel, ComplaintStatus, Complaint, RefusalReason,
}

abbrev token_of : ℕ → TokenType
token_of zero = TokenType.access
token_of (suc zero) = TokenType.mfa_login
token_of (suc (suc zero)) = TokenType.email_code
token_of (suc (suc (suc n))) = TokenType.other_type n

abbrev read_claims : Text → Option Claims
read_claims (sub ∷ sid ∷ t ∷ iat ∷ exp ∷ []) =
    some (record { sub = sub; sid = sid; token_type = token_of t; iat = iat; exp = exp; jti = 0 })
read_claims _ = none

abbrev pub platform : Platform
platform = record {
  clock = λ n. n;
  uuid = λ n. 100 + n;
  calendar_year = λ t. 2026;
  strip = λ s. s;
  casefold = λ s. s;
  uuid_text = λ n. [];
  digest = λ s. s;
  encrypt = λ s. s;
  urlsplit = λ s. none;
  case_portal_url = [];
  environment = codes "test";
  lower = λ s. s;
  database_time = λ n. n;
  sast_text = λ n. [];
  crypto = record {
    hash_password = λ n s. s;
    verify_password = λ s t. some (text_eq s t);
    random_token = λ n. n ∷ [];
    random_code = λ n. n;
    sha256 = λ s. s;
    hmac = λ s. s;
    jwt_encode = λ c. c.sub ∷ c.sid ∷ token_rank c.token_type ∷ c.iat ∷ c.exp ∷ [];
    jwt_decode = λ now s. read_claims s;
    decrypt = λ s. some s;
    totp_verify = λ s c n. false;
    ip_text = λ s. some s;
    smtp = λ n. record { sending = true; refused_some = false; accepted = true; raised = none };
  };
  settings = record {
    max_failed_login_attempts = 5;
    account_lock_minutes = 15;
    mfa_challenge_expire_minutes = 5;
    access_token_expire_minutes = 15;
    refresh_token_expire_days = 7;
    email_resend_seconds = 60;
    email_max_sends_per_hour = 10;
    case_mail_configured = true;
  };
}

abbrev pub person : ℕ → User
person id = record {
  id = id;
  username = codes "user";
  email = codes "user@example.org";
  password_hash = codes "secret";
  phone_number = none;
  is_active = true;
  is_verified = true;
  mfa_enabled = true;
  failed_login_attempts = 0;
  locked_until = none;
  last_login_at = none;
  updated_at = 0;
}

abbrev post : ℕ → ℕ → Officer
post id user_id = record {
  id = id;
  user_id = user_id;
  station_id = 1;
  service_number = codes "S1";
  rank = codes "Sergeant";
  is_active = true;
}

abbrev pub station : Station
station = record {
  id = 1;
  station_code = codes "JHB";
  name = codes "Central";
  province = codes "Gauteng";
  address_line_1 = none;
  address_line_2 = none;
  city = none;
  is_active = true;
}

abbrev pub complaint : Complaint
complaint = record {
  id = 21;
  reference_number = codes "CMP-JHB-2026-000001";
  complainant_id = 31;
  station_id = 1;
  registered_by_officer_id = none;
  channel = IntakeChannel.online;
  status = ComplaintStatus.submitted;
  crime_category = "THEFT";
  incident_description = "A bicycle";
  incident_occurred_at = none;
  incident_location = "Market";
  submitted_at = 0;
  review_started_at = none;
}

abbrev reason : RefusalReason
reason = record {
  id = 41;
  name = "Non-compliant refusal";
  is_non_compliant = true;
  requires_escalation = true;
  requires_officer_notes = true;
  is_active = true;
}

-- user 1 is the charge officer, 2 the commander, 3 and 4 are investigators
abbrev tables : Db
tables = record {
  access = record {
    users = person 1 ∷ person 2 ∷ person 3 ∷ person 4 ∷ [];
    roles =
        record { id = 1; code = RoleCode.charge_officer }
        ∷ record { id = 2; code = RoleCode.station_commander }
        ∷ record { id = 3; code = RoleCode.investigating_officer }
        ∷ [];
    permissions =
        record { id = 1; code = PermissionCode.case_update_status }
        ∷ record { id = 2; code = PermissionCode.case_close }
        ∷ [];
    user_roles =
        record { user_id = 1; role_id = 1 }
        ∷ record { user_id = 2; role_id = 2 }
        ∷ record { user_id = 3; role_id = 3 }
        ∷ record { user_id = 4; role_id = 3 }
        ∷ [];
    role_permissions =
        record { role_id = 3; permission_id = 1 } ∷ record { role_id = 3; permission_id = 2 } ∷ [];
    stations = station ∷ [];
    officers = post 11 1 ∷ post 12 2 ∷ post 13 3 ∷ post 14 4 ∷ [];
    complainants = record { id = 31; user_id = none; email = none } ∷ [];
    email_auths = [];
  };
  cases = record {
    complaints = complaint ∷ [];
    statements = [];
    refusal_reasons = reason ∷ [];
    decisions = [];
    escalations = [];
    dockets = [];
    witnesses = [];
    witness_statements = [];
    uploads = [];
    approvals = [];
    assignments = [];
    history = [];
    notes = [];
    evidence_items = [];
    evidence_files = [];
    custody_events = [];
  };
  comms = record {
    feedback = [];
    notifications = [];
    attempts = [];
    email_intents = [];
    audit_logs = [];
    alerts = [];
  };
  signins = record { sessions = []; challenges = []; mfa_methods = []; password_resets = [] };
  counters = [];
}

abbrev pub start : World
start = record {
  db = tables;
  committed = tables;
  posted = [];
  platform = platform;
  reads = 0;
  drawn = 0;
}
