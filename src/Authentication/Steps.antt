-- ===== src/Authentication/Steps.antt =====
-- Rules for what the handlers of authentication share: the denials, the entries of the audit log,
-- the new sessions and the tokens.
use saps_case_dockets.Rows.{false-true}
use saps_case_dockets.Prelude.{
  ℕ, ◌+◌, ◌≡◌, refl, sym, ap, ◌∙◌, ◌==◌, true_of, String, Bool, true, false, not, Option, none,
  some, List, [], ◌∷◌, ◌++◌, leb, ltb, exists_where, update_where, arith, if◌then◌else◌,
}
use saps_case_dockets.Text.{Text}
use saps_case_dockets.Schema.{World, User, AuthSession, TokenType, CommsDb}
use saps_case_dockets.Tx.{Tx, Error, pure, raise, ◌>>=◌}
use saps_case_dockets.Tx.Rules.{
  Ensures, Ensures-assoc, Ensures-gets, Ensures-new_id, Ensures-put_comms, Ensures-then,
  Ensures-utcnow,
}
use saps_case_dockets.Tx.Commits.Rules.{
  Ensures-commit, Ensures-put_access, Ensures-put_signins, Ensures-check_db,
}
use saps_case_dockets.Authentication.{
  Client, TokenResponse, auth_audit, deny, deny_if, or_deny, eligible, require_eligible, save_user,
  change_session, is_session, insert_session, session_clashes, open_session, days, new_session,
  draw, lock_is_over, generate_refresh_token, hash_refresh_token, create_token, retire, replaced_at,
  issue_tokens, invalid,
}

-- the world with other rows in the tables of communications, and one identifier more drawn
abbrev pub audited : World → CommsDb → World
audited w comms = record w { db = record w.db { comms = comms }; drawn = w.drawn + 1 }

-- the world with another table of sessions
abbrev pub with_sessions : World → List AuthSession → World
with_sessions w rows = record w {
  db = record w.db { signins = record w.signins { sessions = rows } };
}

-- the world with another table of users
abbrev pub with_users : World → List User → World
with_users w rows = record w { db = record w.db { access = record w.access { users = rows } } }

-- the account has no lock, or its lock is over at that time
pub data IsUnlocked (user : User) (now : ℕ) : Type 0 where
  never_locked : user.locked_until ≡ none → IsUnlocked user now
  lock_over : (t : ℕ) → user.locked_until ≡ some t → leb t now ≡ true → IsUnlocked user now

-- the number of readings of the clock, after the look at a lock: without a lock it reads none
abbrev pub after_lock : Option ℕ → ℕ → ℕ
after_lock none reads = reads
after_lock (some t) reads = reads + 1

-- The account may sign in, by the reading `first` of the clock; `later` is the next one.
pub record IsEligible (user : User) (clock : ℕ → ℕ) (first later : ℕ) : Type 0 where
  pub active : user.is_active ≡ true
  pub lock : IsUnlocked user (clock first)
  pub readings : later ≡ after_lock user.locked_until first

false_of : (b : Bool) → not b ≡ true → b ≡ false
false_of b h = ground arith

module _ {ℓ κ} {B : Type ℓ} {Q : B → World → Type κ} where
  pub Ensures-drawn :
      (value : World → Text) (w : World) (k : Text → Tx B)
      → Ensures (k (value w) (record w { drawn = w.drawn + 1 })) Q
      → Ensures ((draw value >>= k) w) Q
  unfolding ◌>>=◌ draw
  Ensures-drawn value w k h = h

  pub Ensures-auth_audit :
      (client : Client) (action : String) (user_id session_id : Option ℕ) (w : World)
      (k : Unit {0} → Tx B)
      → ((comms : CommsDb) → Ensures (k tt (audited w comms)) Q)
      → Ensures ((auth_audit client action user_id session_id >>= k) w) Q
  unfolding auth_audit
  Ensures-auth_audit client action user_id session_id w k next =
      Ensures-assoc _ _ _ _ (Ensures-new_id _ _ (Ensures-put_comms _ _ _ (next _)))

  Ensures-raise {ι} :
      {A : Type ι} (e : Error) (w : World) (k : A → Tx B) → Ensures ((raise e >>= k) w) Q
  unfolding ◌>>=◌
  Ensures-raise e w k = record { holds = tt }

  pub Ensures-deny {ι} :
      {A : Type ι} (client : Client) (action : String) (user_id : Option ℕ) (detail : Text)
      (w : World) (k : A → Tx B)
      → Ensures ((deny client action user_id detail >>= k) w) Q
  unfolding deny
  Ensures-deny client action user_id detail w k = Ensures-assoc _ _ _ _ (
      Ensures-auth_audit client action user_id none _ _
        λ comms. Ensures-assoc _ _ _ _ (Ensures-commit _ _ (Ensures-raise _ _ _)))

  pub Ensures-deny_if :
      (b : Bool) (client : Client) (action : String) (user_id : Option ℕ) (detail : Text)
      (w : World) (k : Unit {0} → Tx B)
      → (b ≡ false → Ensures (k tt w) Q)
      → Ensures ((deny_if b client action user_id detail >>= k) w) Q
  unfolding deny_if
  Ensures-deny_if true client action user_id detail w k next =
      Ensures-deny client action user_id detail w k
  Ensures-deny_if false client action user_id detail w k next = Ensures-then _ _ _ (next refl)

  pub Ensures-or_deny {ι} :
      {A : Type ι} (o : Option A) (client : Client) (action : String) (user_id : Option ℕ)
      (detail : Text) (w : World) (k : A → Tx B)
      → ((a : A) → o ≡ some a → Ensures (k a w) Q)
      → Ensures ((or_deny o client action user_id detail >>= k) w) Q
  unfolding or_deny
  Ensures-or_deny none client action user_id detail w k next =
      Ensures-deny client action user_id detail w k
  Ensures-or_deny (some a) client action user_id detail w k next = Ensures-then _ _ _ (next a refl)

  Ensures-lock_is_over :
      (user : User) (lock : Option ℕ) (w : World) (k : Bool → Tx B)
      → lock ≡ user.locked_until
      → ((lock : Bool) (n : ℕ)
          → (lock ≡ true
              → IsUnlocked user (w.platform.clock w.reads)
                × (n ≡ after_lock user.locked_until w.reads))
          → Ensures (k lock (record w { reads = n })) Q)
      → Ensures ((lock_is_over lock >>= k) w) Q
  Ensures-lock_is_over user none w k e next =
      Ensures-then _ _ _
        (next true w.reads λ _. (never_locked (sym e), ap (λ l. after_lock l w.reads) e))
  Ensures-lock_is_over user (some t) w k e next = Ensures-assoc _ _ _ _ (
      Ensures-utcnow _ _ (
        Ensures-then _ _ _
          (next _ _ λ h. (lock_over t (sym e) h, ap (λ l. after_lock l w.reads) e))))

  Ensures-eligible :
      (user : User) (active : Bool) (w : World) (k : Bool → Tx B)
      → active ≡ user.is_active
      → ((admitted : Bool) (n : ℕ)
          → (admitted ≡ true → IsEligible user w.platform.clock w.reads n)
          → Ensures (k admitted (record w { reads = n })) Q)
      → Ensures (((if active then lock_is_over user.locked_until else pure false) >>= k) w) Q
  Ensures-eligible user true w k e next =
      Ensures-lock_is_over user user.locked_until w k refl
        λ lock n f. next lock n λ h. record { active = sym e; lock = (f h).0; readings = (f h).1 }
  Ensures-eligible user false w k e next =
      Ensures-then _ _ _ (next false w.reads λ h. absurd (false-true h))

  pub Ensures-require_account :
      (client : Client) (action : String) (user : User) (w : World) (k : User → Tx B)
      → ((n : ℕ)
          → IsEligible user w.platform.clock w.reads n
          → Ensures (k user (record w { reads = n })) Q)
      → Ensures ((require_eligible client action (some user) >>= k) w) Q
  unfolding require_eligible eligible
  Ensures-require_account client action user w k next = Ensures-assoc _ _ _ _ (
      Ensures-eligible user user.is_active w _ refl λ admitted n f. Ensures-assoc _ _ _ _ (
        Ensures-deny_if _ client _ _ _ _ _
          λ h. Ensures-then _ _ _ (next n (f (true_of admitted h)))))

  -- an account that is admitted is active, and not locked at the next reading of the clock
  pub Ensures-require_eligible :
      (client : Client) (action : String) (account : Option User) (w : World) (k : User → Tx B)
      → ((user : User) (n : ℕ)
          → account ≡ some user
          → IsEligible user w.platform.clock w.reads n
          → Ensures (k user (record w { reads = n })) Q)
      → Ensures ((require_eligible client action account >>= k) w) Q
  unfolding require_eligible
  Ensures-require_eligible client action none w k next = Ensures-deny client action none invalid w k
  Ensures-require_eligible client action (some user) w k next =
      Ensures-require_account client action user w k λ n e. next user n refl e

  pub Ensures-save_user :
      (user : User) (w : World) (k : Unit {0} → Tx B)
      → Ensures (k tt (with_users w (update_where (λ u. u.id == user.id) (λ _. user) w.users))) Q
      → Ensures ((save_user user >>= k) w) Q
  unfolding save_user
  Ensures-save_user user w k h = Ensures-put_access _ _ _ h

  pub Ensures-change_session :
      (id : ℕ) (f : AuthSession → AuthSession) (w : World) (k : Unit {0} → Tx B)
      → Ensures (k tt (with_sessions w (update_where (is_session id) f w.sessions))) Q
      → Ensures ((change_session id f >>= k) w) Q
  unfolding change_session
  Ensures-change_session id f w k h = Ensures-put_signins _ _ _ h

  -- the token is fresh: no session has its hash
  pub Ensures-open_session :
      (client : Client) (user_id now expires_at : ℕ) (w : World) (k : Text × AuthSession → Tx B)
      → ((raw : Text) (id n : ℕ) (row : AuthSession)
          → row ≡ new_session client id user_id (w.platform.crypto.sha256 raw) now expires_at
          → exists_where (session_clashes row) w.sessions ≡ false
          → ltb now expires_at ≡ true
          → Ensures
              (k (raw, row) (with_sessions (record w { drawn = n }) (w.sessions ++ row ∷ [])))
              Q)
      → Ensures ((open_session client user_id now expires_at >>= k) w) Q
  unfolding open_session generate_refresh_token hash_refresh_token insert_session
  Ensures-open_session client user_id now expires_at w k next = Ensures-assoc _ _ _ _ (
      Ensures-drawn _ _ _ (
        Ensures-assoc _ _ _ _ (
          Ensures-gets _ _ _ (
            Ensures-assoc _ _ _ _ (
              Ensures-new_id _ _ (
                Ensures-assoc _ _ _ _ (
                  Ensures-assoc _ _ _ _ (
                    Ensures-check_db _ _ _ λ c0. Ensures-assoc _ _ _ _ (
                      Ensures-check_db _ _ _ λ c1.
                        Ensures-put_signins _ _ _
                          (Ensures-then _ _ _ (next _ _ _ _ refl (false_of _ c0) c1)))))))))))

  pub Ensures-create_token :
      (user_id session_id : ℕ) (purpose : TokenType) (lifetime : ℕ) (w : World) (k : Text → Tx B)
      → ((token : Text) (n m : ℕ) → Ensures (k token (record w { reads = n; drawn = m })) Q)
      → Ensures ((create_token user_id session_id purpose lifetime >>= k) w) Q
  unfolding create_token
  Ensures-create_token user_id session_id purpose lifetime w k next = Ensures-assoc _ _ _ _ (
      Ensures-utcnow _ _
        (Ensures-assoc _ _ _ _ (Ensures-new_id _ _ (Ensures-gets _ _ _ (next _ _ _)))))

-- the sessions with the earlier one replaced
abbrev pub retired_rows : Option AuthSession → ℕ → ℕ → List AuthSession → List AuthSession
retired_rows none now id rows = rows
retired_rows (some p) now id rows = update_where (is_session p.id) (replaced_at now id) rows

-- what `issue_tokens` did at that time: the new session, and the earlier one that it replaces
pub record Issued (client : Client) (user_id : ℕ) (previous : Option AuthSession) (now : ℕ)
    (w : World) (out : TokenResponse) (rows : List AuthSession) : Type 0 where
  pub row : AuthSession
  pub id : ℕ
  pub new :
      row
      ≡ new_session client id user_id
          (w.platform.crypto.sha256 out.refresh_token)
          now
          (now + days w.platform.settings.refresh_token_expire_days)
  pub fresh : exists_where (session_clashes row) w.sessions ≡ false
  pub written : rows ≡ retired_rows previous now row.id (w.sessions ++ row ∷ [])

-- it looks at the sessions and the platform only
pub Issued-moved :
    (client : Client) (user_id : ℕ) (previous : Option AuthSession) (now : ℕ) (w v : World)
    (out : TokenResponse) (rows : List AuthSession)
    → w.sessions ≡ v.sessions
    → w.platform ≡ v.platform
    → Issued client user_id previous now w out rows
    → Issued client user_id previous now v out rows
Issued-moved client user_id previous now w v out rows same platform issued = record {
  row = issued.row;
  id = issued.id;
  new = rw (← platform) issued.new;
  fresh = rw (← same) issued.fresh;
  written =
      issued.written
      ∙ ap (λ rs. retired_rows previous now issued.row.id (rs ++ issued.row ∷ [])) same;
}

module _ {ℓ κ} {B : Type ℓ} {Q : B → World → Type κ} where
  Ensures-retire :
      (previous : Option AuthSession) (now id : ℕ) (w : World) (k : Unit {0} → Tx B)
      → Ensures (k tt (with_sessions w (retired_rows previous now id w.sessions))) Q
      → Ensures ((retire previous now id >>= k) w) Q
  unfolding retire
  Ensures-retire none now id w k h = Ensures-then _ _ _ h
  Ensures-retire (some p) now id w k h = Ensures-change_session p.id (replaced_at now id) _ _ h

  pub Ensures-issue_tokens :
      (client : Client) (user : User) (previous : Option AuthSession) (w : World)
      (k : TokenResponse → Tx B)
      → ((out : TokenResponse) (rows : List AuthSession) (n m : ℕ)
          → Issued client user.id previous (w.platform.clock w.reads) w out rows
          → Ensures (k out (with_sessions (record w { reads = n; drawn = m }) rows)) Q)
      → Ensures ((issue_tokens client user previous >>= k) w) Q
  unfolding issue_tokens
  Ensures-issue_tokens client user previous w k next = Ensures-assoc _ _ _ _ (
      Ensures-utcnow _ _ (
        Ensures-assoc _ _ _ _ (
          Ensures-gets _ _ _ (
            Ensures-assoc _ _ _ _ (
              Ensures-open_session _ _ _ _ _ _ λ raw id n row new fresh later.
                Ensures-assoc _ _ _ _ (
                  Ensures-retire previous _ _ _ _ (
                    Ensures-assoc _ _ _ _ (
                      Ensures-create_token _ _ _ _ _ _ λ token n m. Ensures-then _ _ _ (
                        next _ _ _ _ (record {
                          row = row;
                          id = id;
                          new = new;
                          fresh = fresh;
                          written = refl;
                        }))))))))))
