-- ===== src/Tests/Returns.antt =====
-- The calls on the station with its sign-ins return.
use saps_case_dockets.Prelude.{
  exists_where, false, first_where, length, max_where, none, refl, rows_where, some, top_where,
  update_where, ◌≡◌,
}
use saps_case_dockets.Authentication.{
  active_mfa, auth_audit, by_identifier, by_refresh_hash, change_session, create_token,
  decode_token, deny, deny_if, draw, eligible, email_method, find_session, find_user,
  generate_refresh_token, hash_refresh_token, insert_session, is_authenticated, issue_tokens,
  open_session, or_deny, recent_mfa_failures, require_eligible, retire, save_user, verify_password,
}
use saps_case_dockets.Authentication.Email.{
  after_submission, code_digest, draw_code, email_challenge, insert_challenge, last_split,
  leave_authenticator, lock_account, masked, refuse_if, require_open, send_challenge, set_delivery,
  validate_challenge, verify_email,
}
use saps_case_dockets.Authentication.SignIn.{
  challenge_by_email, challenge_by_totp, fail_password, go_on, insert_user, login, require_password,
  sign_in,
}
use saps_case_dockets.Store.{
  check, docket_is_accepted, insert_custody_event, insert_history, insert_item, update_docket,
  update_item,
}
use saps_case_dockets.Tx.Commits.{
  check_db, commit, put_access, put_signins, service_call, session_call,
}
use saps_case_dockets.Text.{codes, occurs, starts_with, text_eq}
use saps_case_dockets.Identifiers.{
  allocate_evidence_reference, allocate_identifier, bump, code_rest, decimal, digits,
  format_identifier, is_alnum, is_counter, is_station_code, padded, zeros,
}
use saps_case_dockets.Mail.{dialogue, submit, submitted}
use saps_case_dockets.Tx.{
  modify, new_id, put_cases, put_comms, raise_if, transactional, utcnow, ◌>>=◌,
}
use saps_case_dockets.Investigations.{is_assigned, scope, transition}
use saps_case_dockets.Notify.{
  audit, enqueue, enqueue_event, enqueue_new, enqueue_unless, event_body, notify_complainant,
  queue_reason, system_audit, tracking_link, verified_email,
}
use saps_case_dockets.Authentication.Rotation.{
  chain, logout, refresh, refresh_session, reject_revoked, report_reuse, revoke_session_chain,
  session_chain,
}
use saps_case_dockets.Authentication.Guard.{current_session, live_user}
use saps_case_dockets.Authentication.Recovery.{reset_password}
use saps_case_dockets.Access.{
  active_officer, active_user_officer, has_one_of, has_permission, has_role, investigation_officer,
  station_is_active, station_officer, user_is_active,
}
use saps_case_dockets.Feedback.{
  authorize, authorize_officer, check_superseded, has_assignment, insert_feedback, is_owner,
  publish,
}
use saps_case_dockets.Delivery.{
  add_attempt, before_first, block_mail, block_reason, change_mail, fresh_body, mail_entry,
  next_mail, process_one, process_row, send_mail, send_unless, settle,
}
use saps_case_dockets.Alerts.{
  commander_station, management_scope, may_become, move_alert, require_active, require_granted,
}
use saps_case_dockets.Dockets.{station_docket}
use saps_case_dockets.Administration.{
  admin_audit, admin_call, change_staff, has_open_docket, roles_of, station_role,
}
use saps_case_dockets.Intake.{
  append_statement, initial_evidence, insert_statement, investigator_material, material_scope,
  station_material,
}
use saps_case_dockets.Evidence.{
  custody, custody_version, destination_of, evidence_out, item_scope, latest_event, register_record,
}
use saps_case_dockets.Tx.Rules.{is_error}
use saps_case_dockets.Tests.Station.{person}
use saps_case_dockets.Tests.Accounts.{
  bearer, challenge_token, client, correction, progress, promotion, seen, signed_in,
}
use saps_case_dockets.Listings.{ordered}

login_returns : is_error (login client (codes "user") (codes "secret") signed_in).0 ≡ false
unfolding active_mfa after_submission auth_audit by_identifier challenge_by_email challenge_by_totp
    change_session check check_db code_digest codes commit create_token decimal deny deny_if
    dialogue digits docket_is_accepted draw draw_code eligible email_method exists_where
    fail_password first_where generate_refresh_token go_on hash_refresh_token insert_challenge
    insert_history insert_session insert_user issue_tokens last_split lock_account login masked
    max_where modify new_id open_session ordered padded put_access put_cases put_comms put_signins
    raise_if require_eligible require_password retire rows_where save_user send_challenge
    service_call set_delivery sign_in submit submitted text_eq top_where transition update_docket
    update_where utcnow verified_email verify_password zeros ◌>>=◌
login_returns = refl

verify_email_returns :
    is_error (verify_email client challenge_token (codes "123456") signed_in).0 ≡ false
unfolding active_mfa after_submission auth_audit by_identifier challenge_by_email challenge_by_totp
    change_session check check_db code_digest codes commit create_token decimal decode_token deny
    deny_if dialogue digits docket_is_accepted draw draw_code eligible email_challenge email_method
    exists_where fail_password find_session find_user first_where generate_refresh_token go_on
    hash_refresh_token insert_challenge insert_history insert_session insert_user issue_tokens
    last_split leave_authenticator lock_account login masked max_where modify new_id open_session
    or_deny ordered padded put_access put_cases put_comms put_signins raise_if recent_mfa_failures
    refuse_if require_eligible require_open require_password retire rows_where save_user
    send_challenge service_call set_delivery sign_in submit submitted text_eq top_where transition
    update_docket update_where utcnow validate_challenge verified_email verify_email verify_password
    zeros ◌>>=◌
verify_email_returns = refl

refresh_returns : is_error (refresh client (codes "new") signed_in).0 ≡ false
unfolding active_mfa auth_audit by_refresh_hash chain change_session check check_db codes commit
    create_token deny deny_if draw eligible email_method exists_where find_session find_user
    first_where generate_refresh_token hash_refresh_token insert_session is_authenticated
    issue_tokens max_where modify new_id open_session or_deny ordered put_cases put_comms
    put_signins raise_if refresh refresh_session reject_revoked report_reuse require_eligible retire
    revoke_session_chain rows_where service_call session_chain text_eq top_where update_where utcnow
    verified_email ◌>>=◌
refresh_returns = refl

logout_returns : is_error (logout client (codes "old") signed_in).0 ≡ false
unfolding auth_audit by_refresh_hash chain codes commit deny deny_if exists_where find_session
    find_user first_where hash_refresh_token logout max_where modify new_id or_deny ordered
    put_cases put_comms put_signins raise_if refresh_session revoke_session_chain rows_where
    service_call session_chain text_eq top_where update_where utcnow ◌>>=◌
logout_returns = refl

current_session_returns : is_error (current_session (some bearer) signed_in).0 ≡ false
unfolding active_mfa codes current_session decode_token email_method exists_where find_session
    find_user first_where is_authenticated live_user max_where modify ordered put_cases put_comms
    raise_if rows_where text_eq top_where update_where utcnow verified_email ◌>>=◌
current_session_returns = refl

reset_password_returns :
    is_error (reset_password client (codes "forgotten") (codes "better") signed_in).0 ≡ false
unfolding auth_audit codes commit email_method exists_where find_user first_where hash_refresh_token
    max_where modify new_id ordered put_access put_cases put_comms put_signins raise_if
    reset_password rows_where save_user service_call text_eq top_where update_where utcnow
    verified_email ◌>>=◌
reset_password_returns = refl

publish_returns : is_error (publish (person 3) 101 progress signed_in).0 ≡ false
unfolding active_officer audit authorize authorize_officer chain check_superseded codes commit
    enqueue enqueue_event enqueue_new enqueue_unless event_body exists_where first_where
    has_assignment has_permission insert_feedback is_owner max_where modify new_id
    notify_complainant occurs ordered publish put_cases put_comms queue_reason raise_if rows_where
    starts_with station_is_active submitted system_audit text_eq top_where tracking_link
    transactional update_where utcnow verified_email ◌>>=◌
publish_returns = refl

process_one_returns : is_error (process_one none signed_in).0 ≡ false
unfolding add_attempt before_first block_mail block_reason change_mail codes commit dialogue
    exists_where first_where fresh_body mail_entry max_where modify new_id next_mail occurs ordered
    process_one process_row put_cases put_comms raise_if rows_where send_mail send_unless
    session_call settle starts_with submit submitted text_eq top_where tracking_link update_where
    utcnow verified_email ◌>>=◌
process_one_returns = refl

move_alert_returns : is_error (move_alert (person 2) 301 seen signed_in).0 ≡ false
unfolding active_mfa active_officer active_user_officer audit auth_audit by_refresh_hash chain
    change_session check check_db codes commander_station commit create_token deny deny_if draw
    eligible email_method exists_where find_session find_user first_where generate_refresh_token
    has_one_of has_permission has_role hash_refresh_token insert_session investigation_officer
    is_assigned is_authenticated issue_tokens management_scope max_where may_become modify
    move_alert new_id open_session or_deny ordered put_cases put_comms put_signins raise_if refresh
    refresh_session reject_revoked report_reuse require_active require_eligible require_granted
    retire revoke_session_chain rows_where scope service_call session_chain station_docket
    station_is_active text_eq top_where transactional update_where user_is_active utcnow
    verified_email ◌>>=◌
move_alert_returns = refl

change_staff_returns : is_error (change_staff 2 3 promotion signed_in).0 ≡ false
unfolding admin_audit admin_call change_staff codes exists_where first_where has_open_docket
    max_where modify new_id ordered put_access put_cases put_comms put_signins raise_if roles_of
    rows_where station_role text_eq top_where update_where utcnow ◌>>=◌
change_staff_returns = refl

append_statement_returns : is_error (append_statement 3 21 correction signed_in).0 ≡ false
unfolding active_mfa active_user_officer allocate_evidence_reference allocate_identifier
    append_statement audit auth_audit bump by_refresh_hash chain change_session check check_db
    code_rest codes commit create_token custody custody_version decimal deny deny_if destination_of
    digits draw eligible email_method evidence_out exists_where find_session find_user first_where
    format_identifier generate_refresh_token has_one_of has_permission has_role hash_refresh_token
    initial_evidence insert_custody_event insert_item insert_session insert_statement
    investigation_officer investigator_material is_alnum is_assigned is_authenticated is_counter
    is_station_code issue_tokens item_scope latest_event material_scope max_where modify new_id
    open_session or_deny ordered padded put_cases put_comms put_signins raise_if refresh
    refresh_session register_record reject_revoked report_reuse require_eligible retire
    revoke_session_chain rows_where scope service_call session_chain station_docket
    station_is_active station_material station_officer submitted text_eq top_where transactional
    update_item update_where user_is_active utcnow verified_email zeros ◌>>=◌
append_statement_returns = refl

-- the call sends the mail
one_posted : length (process_one none signed_in).1.posted ≡ 1
unfolding add_attempt before_first block_mail block_reason change_mail codes commit dialogue
    exists_where first_where fresh_body mail_entry max_where modify new_id next_mail occurs ordered
    process_one process_row put_cases put_comms raise_if rows_where send_mail send_unless
    session_call settle starts_with submit submitted text_eq top_where tracking_link update_where
    utcnow verified_email ◌>>=◌
one_posted = refl
