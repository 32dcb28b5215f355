-- ===== src/Authentication/Guard/Access.antt =====
-- The guards of the endpoints (app/modules/authentication/dependencies.py), by themselves and after
-- a logout.
use saps_case_dockets.Prelude.{
  ℕ, ◌≡◌, refl, Bool, true, false, not, ◌||◌, Option, none, some, is_some, leb, ltb, ◌&&◌,
  if◌then◌else◌, equal_of, exists_where, arith,
}
use saps_case_dockets.Text.{Text}
use saps_case_dockets.Schema.{
  World, Platform, User, AuthSession, Claims, TokenType, same_token_type,
}
use saps_case_dockets.Rows.{first_where_sound, first_where-unless}
use saps_case_dockets.Tx.{Tx, ◌>>=◌}
use saps_case_dockets.Tx.Rules.{
  Ensures, is_error, is_error-Ensures, Ensures-assoc, Ensures-gets, Ensures-or_raise, Ensures-pure,
  Ensures-raise_if, Ensures-then, Ensures-utcnow, Ensures-weaken,
}
use saps_case_dockets.Authentication.{
  Client, is_session, decode_token, find_session, find_user, is_authenticated, email_method,
  active_mfa,
}
use saps_case_dockets.Authentication.Rotation.{logout}
use saps_case_dockets.Authentication.Rotation.Once.{Named}
use saps_case_dockets.Authentication.Rotation.Chain.{Descends, is_live, Ended-dead, logout-Ended}
use saps_case_dockets.Authentication.Guard.{Credentials, live_user, current_session}

-- What a session that is let in says of its request.
pub record LetIn (given : Option Credentials) (w : World) (out : AuthSession) (w' : World)
    : Type 0 where
  pub header : Credentials
  pub claims : Claims
  pub user : User
  pub present : given ≡ some header
  pub signed : decode_token w header.credentials TokenType.access ≡ some claims
  pub known : find_session w claims.sid ≡ some out
  pub own : out.user_id ≡ claims.sub
  pub was_open : is_some out.revoked_at ≡ false
  pub unexpired : leb out.expires_at (w.platform.clock w.reads) ≡ false
  pub account : find_user w out.user_id ≡ some user
  pub active : user.is_active ≡ true
  pub proved : (not user.mfa_enabled || not (is_authenticated w user)) ≡ false
  pub same_db : w'.db ≡ w.db

first_of : (b c : Bool) → (not b || c) ≡ false → b ≡ true
first_of b c h = ground arith

second_of : (b c : Bool) → (not b || c) ≡ false → c ≡ false
second_of b c h = ground arith

module _ {ℓ κ} {B : Type ℓ} {Q : B → World → Type κ} where
  Ensures-live_user :
      (user_id : ℕ) (w : World) (k : User → Tx B)
      → ((user : User)
          → find_user w user_id ≡ some user
          → user.is_active ≡ true
          → (not user.mfa_enabled || not (is_authenticated w user)) ≡ false
          → Ensures (k user w) Q)
      → Ensures ((live_user user_id >>= k) w) Q
  unfolding live_user
  Ensures-live_user user_id w k next = Ensures-assoc _ _ _ _ (
      Ensures-gets _ _ _ (
        Ensures-assoc _ _ _ _ (
          Ensures-or_raise _ _ _ _ λ user found. Ensures-assoc _ _ _ _ (
            Ensures-gets _ _ _ (
              Ensures-assoc _ _ _ _ (
                Ensures-raise_if _ _ _ _
                  λ h. Ensures-then _ _ _ (next user found (first_of _ _ h) (second_of _ _ h))))))))

first_or : (b c : Bool) → (b || c) ≡ false → b ≡ false
first_or b c h = ground arith

second_or : (b c : Bool) → (b || c) ≡ false → c ≡ false
second_or b c h = ground arith

-- A request is let in only with a signed access token that names a session of the user it names,
-- neither revoked nor expired at the reading of the clock, of an active account with a second factor that still stands; the
-- check changes nothing in the database.
pub current_session-LetIn :
    (given : Option Credentials) (w : World) → Ensures (current_session given w) (LetIn given w)
unfolding current_session find_session find_user decode_token is_authenticated email_method
    active_mfa
current_session-LetIn given w = Ensures-or_raise _ _ _ _ λ header present. Ensures-gets _ _ _ (
    Ensures-raise_if _ _ _ _ λ form. Ensures-gets _ _ _ (
      Ensures-or_raise _ _ _ _ λ claims signed. Ensures-gets _ _ _ (
        Ensures-or_raise _ _ _ _ λ row found. Ensures-raise_if _ _ _ _ λ h. Ensures-utcnow _ _ (
          Ensures-raise_if _ _ _ _ λ unexpired.
            Ensures-live_user _ _ _ λ user account active proved. Ensures-pure _ _ (record {
              header = header;
              claims = claims;
              user = user;
              present = present;
              signed = signed;
              known = found;
              own = equal_of _ _ (first_or _ _ h);
              was_open = second_or _ _ h;
              unexpired = unexpired;
              account = account;
              active = active;
              proved = proved;
              same_db = refl;
            })))))

live_row :
    (j : ℕ) (w : World) (row : AuthSession)
    → exists_where (is_live j) w.sessions ≡ false
    → find_session w j ≡ some row
    → is_some row.revoked_at ≡ false
    → false ≡ true
unfolding find_session
live_row j w row dead found open_still = ground (
  arith,
  first_where_sound (is_session j) w.sessions {x = row} found,
  first_where-unless (is_live j) (is_session j) w.sessions {x = row} dead found,
)

signed_by :
    (decoded : Option Claims) (claims : Claims)
    → (elim decoded [
      | none ↦ none
      | some c ↦
          if same_token_type c.token_type TokenType.access && ltb c.iat c.exp then some c else none
    ])
      ≡ some claims
    → decoded ≡ some claims
signed_by decoded claims h = ground arith

same_decode :
    (p' p : Platform) (now : ℕ) (header shown : Credentials) (claims : Claims)
    → p' ≡ p
    → some header ≡ some shown
    → p'.crypto.jwt_decode now shown.credentials ≡ some claims
    → p.crypto.jwt_decode now header.credentials ≡ some claims
same_decode p' p now header shown claims same e h = cc

names_one :
    (w w' : World) (header shown : Credentials) (claims : Claims) (j : ℕ)
    → ((now : ℕ) (claims : Claims)
        → w.platform.crypto.jwt_decode now header.credentials ≡ some claims
        → claims.sid ≡ j)
    → w'.platform ≡ w.platform
    → some header ≡ some shown
    → decode_token w' shown.credentials TokenType.access ≡ some claims
    → claims.sid ≡ j
unfolding decode_token
names_one w w' header shown claims j names same e h =
    names _ claims (same_decode _ _ _ header shown claims same e (signed_by _ claims h))

-- After a logout has returned, no request is let in with a token that names, at whatever time it is
-- read, the session that the logout named or one that replaced it.
pub logout-shuts :
    (client : Client) (token : Text) (w : World) (user : User) (row : AuthSession) (j : ℕ)
    (header : Credentials)
    → Named token w user row
    → Descends w.sessions user.id row.id j
    → ((now : ℕ) (claims : Claims)
        → w.platform.crypto.jwt_decode now header.credentials ≡ some claims
        → claims.sid ≡ j)
    → Ensures (logout client token w) λ _ w'. is_error (current_session (some header) w').0 ≡ true
logout-shuts client token w user row j header named d names =
    Ensures-weaken _ _ (logout-Ended client token w) λ out w' done.
      is_error-Ensures _ (current_session-LetIn (some header) w') λ s _ again.
        live_row j w' s (Ended-dead token w w' out user row j named d done)
          (rw
            (← (
              names_one w w' header again.header again.claims j names done.same_platform
                again.present again.signed))
            again.known)
          again.was_open
