-- ===== src/Tests/SigninWitnesses.antt =====
-- Each theorem on accounts, messages and intake applied to the station with its sign-ins.
use saps_case_dockets.Prelude.{
  ℕ, ◌≡◌, refl, true, false, first_where, exists_where, none, some, length, arith, ◌==◌, ◌+◌,
}
use saps_case_dockets.Text.{codes, text_eq}
use saps_case_dockets.Schema.{Claims}
use saps_case_dockets.Tx.Rules.{Ensures, is_error}
use saps_case_dockets.Authentication.{
  by_identifier, verify_password, by_refresh_hash, hash_refresh_token, find_user, find_session,
}
use saps_case_dockets.Authentication.SignIn.{login}
use saps_case_dockets.Authentication.SignIn.Effects.{SignedIn, login-SignedIn}
use saps_case_dockets.Authentication.SignIn.Lockout.{Counted, login-Counted}
use saps_case_dockets.Authentication.Email.Verified.{Verified}
use saps_case_dockets.Authentication.Rotation.{refresh, logout, chain}
use saps_case_dockets.Authentication.Rotation.Once.{Named, Rotated, refresh-Rotated, refresh-once}
use saps_case_dockets.Authentication.Rotation.Reuse.{Reused, refresh-Reused}
use saps_case_dockets.Authentication.Rotation.Chain.{
  Descends, itself, replaced, has_id, is_live, logout-revokes, Descends-in,
}
use saps_case_dockets.Authentication.Recovery.{reset_password}
use saps_case_dockets.Authentication.Recovery.Reset.{Reset, reset_password-Reset}
use saps_case_dockets.Authentication.Guard.{current_session}
use saps_case_dockets.Authentication.Guard.Access.{LetIn, current_session-LetIn, logout-shuts}
use saps_case_dockets.Feedback.{publish}
use saps_case_dockets.Feedback.Publishing.{
  Published, publish-Published, is_unforked, publish-is_unforked,
}
use saps_case_dockets.Delivery.{process_one}
use saps_case_dockets.Delivery.Claim.{Handed, process_one-Handed}
use saps_case_dockets.Alerts.{move_alert}
use saps_case_dockets.Alerts.Transition.{Moved, move_alert-Moved}
use saps_case_dockets.Administration.{change_staff}
use saps_case_dockets.Administration.Change.{Managed, change_staff-Managed, change_staff-shuts}
use saps_case_dockets.Intake.{append_statement}
use saps_case_dockets.Intake.Statements.{Latest, append_statement-Latest}
use saps_case_dockets.Tests.Station.{person}
use saps_case_dockets.Tests.Accounts.{
  client, first_session, signed_in, bearer, progress, seen, promotion, correction,
}

login-SignedIn_example :
    Ensures
      (login client (codes "user") (codes "secret") signed_in)
      (SignedIn (codes "user") (codes "secret") signed_in)
login-SignedIn_example = login-SignedIn client (codes "user") (codes "secret") signed_in

known_user : by_identifier signed_in (codes "user") ≡ some (person 1)
unfolding by_identifier first_where text_eq codes
known_user = refl

wrong_password : verify_password signed_in (codes "guess") (person 1).password_hash ≡ false
unfolding verify_password text_eq codes
wrong_password = refl

login-Counted_example :
    let (r, w') = login client (codes "user") (codes "guess") signed_in in
    (is_error r ≡ true) × Counted (person 1) signed_in w'
login-Counted_example =
    login-Counted client (codes "user") (codes "guess") signed_in (person 1) known_user refl refl
      wrong_password

refresh-Rotated_example :
    Ensures (refresh client (codes "new") signed_in) (Rotated client (codes "new") signed_in)
refresh-Rotated_example = refresh-Rotated client (codes "new") signed_in

refresh-once_example :
    Ensures
      (refresh client (codes "new") signed_in)
      λ _ w'. is_error (refresh client (codes "new") w').0 ≡ true
refresh-once_example = refresh-once client client (codes "new") signed_in

named : Named (codes "old") signed_in (person 3) first_session
unfolding by_refresh_hash hash_refresh_token find_user find_session first_where text_eq codes
named = record { candidate = first_session; known = refl; account = refl; found = refl }

successor : Descends signed_in.sessions 3 201 202
unfolding first_where exists_where
successor = replaced first_session (itself refl) refl refl refl

logout-revokes_example :
    Ensures
      (logout client (codes "old") signed_in)
      λ _ w'. exists_where (is_live 202) w'.sessions ≡ false
logout-revokes_example =
    logout-revokes client (codes "old") signed_in (person 3) first_session 202 named successor

Descends-in_example : has_id (chain (length signed_in.sessions) 3 201 signed_in.sessions) 202 ≡ true
Descends-in_example = Descends-in signed_in.sessions 3 201 successor

names_second :
    (now : ℕ) (claims : Claims)
    → signed_in.platform.crypto.jwt_decode now bearer.credentials ≡ some claims
    → claims.sid ≡ 202
names_second now claims h = ground arith

current_session-LetIn_example :
    Ensures (current_session (some bearer) signed_in) (LetIn (some bearer) signed_in)
current_session-LetIn_example = current_session-LetIn (some bearer) signed_in

logout-shuts_example :
    Ensures
      (logout client (codes "old") signed_in)
      λ _ w'. is_error (current_session (some bearer) w').0 ≡ true
logout-shuts_example =
    logout-shuts client (codes "old") signed_in (person 3) first_session 202 bearer named successor
      names_second

reset_password-Reset_example :
    Ensures
      (reset_password client (codes "forgotten") (codes "better") signed_in)
      (Reset (codes "forgotten") (codes "better") signed_in)
reset_password-Reset_example =
    reset_password-Reset client (codes "forgotten") (codes "better") signed_in

publish-Published_example :
    Ensures
      (publish (person 3) 101 progress signed_in)
      (Published (person 3) 101 progress signed_in)
publish-Published_example = publish-Published (person 3) 101 progress signed_in

unforked : is_unforked signed_in.feedback ≡ true
unfolding is_unforked exists_where
unforked = refl

publish-is_unforked_example :
    Ensures (publish (person 3) 101 progress signed_in) λ _ w'. is_unforked w'.feedback ≡ true
publish-is_unforked_example = publish-is_unforked (person 3) 101 progress signed_in unforked

process_one-Handed_example :
    let (r, w') = process_one none signed_in in Handed signed_in.posted w'.posted
process_one-Handed_example = process_one-Handed none signed_in

move_alert-Moved_example :
    Ensures (move_alert (person 2) 301 seen signed_in) (Moved (person 2) 301 seen signed_in)
move_alert-Moved_example = move_alert-Moved (person 2) 301 seen signed_in

change_staff-Managed_example :
    Ensures (change_staff 2 3 promotion signed_in) (Managed 2 3 promotion signed_in)
change_staff-Managed_example = change_staff-Managed 2 3 promotion signed_in

change_staff-shuts_example :
    Ensures
      (change_staff 2 3 promotion signed_in)
      λ _ w'. Ensures (current_session (some bearer) w') λ row _. (row.user_id == 3) ≡ false
change_staff-shuts_example = change_staff-shuts 2 3 promotion signed_in (some bearer)

append_statement-Latest_example :
    Ensures
      (append_statement 1 21 correction signed_in)
      λ out w'. Latest out w'.statements × (out.statement_version ≡ correction.expected_version + 1)
append_statement-Latest_example = append_statement-Latest 1 21 correction signed_in

refresh-Reused_example : let (r, w') = refresh client (codes "old") signed_in in Reused 202 r w'
refresh-Reused_example =
    refresh-Reused client (codes "old") signed_in (person 3) first_session 1 202 202 named refl refl
      refl successor
