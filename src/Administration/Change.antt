-- ===== src/Administration/Change.antt =====
-- The change of a staff account (app/modules/administration/service.py, `change`).
use saps_case_dockets.Prelude.{
  ℕ, ◌+◌, String, ◌≡◌, refl, Bool, true, false, not, ◌&&◌, ◌||◌, Option, some, List, [], ◌∷◌, ◌==◌,
  is_none, true_of, first_where, exists_where, update_where, arith,
}
use saps_case_dockets.Schema.{
  World, User, Officer, RoleCode, AuthSession, CommsDb, StaffValues, same_role,
}
use saps_case_dockets.Rows.{first_where-unless}
use saps_case_dockets.Tx.{Tx, Result, ok, err, rollback, ◌>>=◌}
use saps_case_dockets.Tx.Rules.{
  Ensures, Holds, Ensures-assoc, Ensures-gets, Ensures-new_id, Ensures-or_raise, Ensures-pure,
  Ensures-put_comms, Ensures-raise_if, Ensures-utcnow, Ensures-weaken,
}
use saps_case_dockets.Tx.Commits.Rules.{Ensures-put_access, Ensures-put_signins}
use saps_case_dockets.Authentication.{find_session}
use saps_case_dockets.Authentication.Guard.{Credentials, current_session}
use saps_case_dockets.Authentication.Guard.Access.{current_session-LetIn}
use saps_case_dockets.Administration.{
  conflict, admin_call, admin_audit, station_role, StaffUpdate, roles_of, single_staff_role,
  has_open_docket, number_taken, change_staff,
}

-- a session of that user that is not revoked
abbrev pub is_open_of : ℕ → AuthSession → Bool
is_open_of user_id s = s.user_id == user_id && is_none s.revoked_at

revoked-closed :
    (user_id now : ℕ) (rows : List AuthSession)
    → exists_where
        (is_open_of user_id)
        (update_where (is_open_of user_id) (λ s. record s { revoked_at = some now }) rows)
      ≡ false
unfolding exists_where update_where
revoked-closed user_id now [] = refl
revoked-closed user_id now (s ∷ rows) = ground (arith, revoked-closed user_id now rows)

module _ {ℓ κ} {B : Type ℓ} {Q : B → World → Type κ} where
  Ensures-admin_of :
      (r : Result B) (w w' : World)
      → Holds r w' Q
      → Ensures {A = B} (elim r [ ok a ↦ (ok a, w') | err e ↦ (err (conflict e), rollback w w') ]) Q
  Ensures-admin_of (ok a) w w' h = record { holds = h }
  Ensures-admin_of (err e) w w' h = record { holds = tt }

  Ensures-admin_call : (m : Tx B) (w : World) → Ensures (m w) Q → Ensures (admin_call m w) Q
  unfolding admin_call
  Ensures-admin_call m w h = Ensures-admin_of (m w).0 w (m w).1 h.holds

  Ensures-admin_audit :
      (actor : ℕ) (action : String) (identity : Option ℕ) (before after : Option StaffValues)
      (w : World) (k : Unit {0} → Tx B)
      → ((comms : CommsDb)
          → Ensures (k tt (record w { db = record w.db { comms = comms }; drawn = w.drawn + 1 })) Q)
      → Ensures ((admin_audit actor action identity before after >>= k) w) Q
  unfolding admin_audit
  Ensures-admin_audit actor action identity before after w k next =
      Ensures-assoc _ _ _ _ (Ensures-new_id _ _ (Ensures-put_comms _ _ _ (next _)))

-- What an answered change says of its request.
pub record Managed (actor identity : ℕ) (request : StaffUpdate) (w : World) (out : User × Officer)
    (w' : World) : Type 0 where
  pub user : User
  pub officer : Officer
  pub code : RoleCode
  pub known : first_where (λ u. u.id == identity) w.users ≡ some user
  pub not_own : (identity == actor) ≡ false
  pub single : single_staff_role (roles_of w.access user.id) ≡ some code
  pub profile : first_where (λ o. o.user_id == identity) w.officers ≡ some officer
  pub current : (user.updated_at == request.expected_updated_at) ≡ true
  pub unoccupied :
      ((not (officer.station_id == request.station_id) || not (same_role code request.role))
        && has_open_docket w officer.id)
      ≡ false
  pub signed_out : exists_where (is_open_of identity) w'.sessions ≡ false
  pub unique_number :
      exists_where (number_taken officer.id request.service_number) w'.officers ≡ false
  pub same_cases : w'.cases ≡ w.cases

first_or : (b c : Bool) → (b || c) ≡ false → b ≡ false
first_or b c h = ground arith

-- A change of a staff account that returns was asked by another account, for one with a single role
-- that is a staff role, at the version that the request expects; an officer who has a docket that is
-- neither closed nor archived kept the station and the role. Afterwards no session of that account is
-- open, no other officer has its service number, and the case tables are as they were.
pub change_staff-Managed :
    (actor identity : ℕ) (request : StaffUpdate) (w : World)
    → Ensures (change_staff actor identity request w) (Managed actor identity request w)
unfolding change_staff has_open_docket roles_of station_role
change_staff-Managed actor identity request w = Ensures-admin_call _ _ (
    Ensures-gets _ _ _ (
      Ensures-or_raise _ _ _ _ λ user known. Ensures-gets _ _ _ (
        Ensures-raise_if _ _ _ _ λ other. Ensures-or_raise _ _ _ _ λ code single.
          Ensures-gets _ _ _ (
            Ensures-or_raise _ _ _ _ λ officer profile. Ensures-raise_if _ _ _ _ λ current.
              Ensures-gets _ _ _ (
                Ensures-raise_if _ _ _ _ λ unoccupied. Ensures-assoc _ _ _ _ (
                  Ensures-gets _ _ _ (
                    Ensures-assoc _ _ _ _ (
                      Ensures-gets _ _ _ (
                        Ensures-assoc _ _ _ _ (
                          Ensures-raise_if _ _ _ _ λ active.
                            Ensures-or_raise _ _ _ _ λ role configured. Ensures-utcnow _ _ (
                              Ensures-put_access _ _ _ (
                                Ensures-utcnow _ _ (
                                  Ensures-put_signins _ _ _ (
                                    Ensures-admin_audit actor _ _ _ _ _ _ λ comms.
                                      Ensures-gets _ _ _ (
                                        Ensures-raise_if _ _ _ _ λ unique.
                                          Ensures-pure _ _ (record {
                                            user = user;
                                            officer = officer;
                                            code = code;
                                            known = known;
                                            not_own = first_or _ _ other;
                                            single = single;
                                            profile = profile;
                                            current = true_of _ current;
                                            unoccupied = unoccupied;
                                            signed_out = revoked-closed identity _ w.sessions;
                                            unique_number = unique;
                                            same_cases = refl;
                                          }))))))))))))))))

-- After a change of a staff account has returned, no request is let in with an earlier sign-in of
-- that account.
pub change_staff-shuts :
    (actor identity : ℕ) (request : StaffUpdate) (w : World) (given : Option Credentials)
    → Ensures
        (change_staff actor identity request w)
        λ _ w'. Ensures (current_session given w') λ row _. (row.user_id == identity) ≡ false
unfolding find_session
change_staff-shuts actor identity request w given =
    Ensures-weaken _ _ (change_staff-Managed actor identity request w) λ out w' done.
      Ensures-weaken _ _ (current_session-LetIn given w') λ row _ let_in. ground (
        arith,
        first_where-unless (is_open_of identity) (λ s. s.id == let_in.claims.sid) w'.sessions
            {x = row} done.signed_out let_in.known,
        let_in.was_open,
      )
