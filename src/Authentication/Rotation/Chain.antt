-- ===== src/Authentication/Rotation/Chain.antt =====
-- The family of a session: `revoke_session_chain` and `logout` of
-- app/modules/authentication/service.py.
use saps_case_dockets.Prelude.{
  ℕ, zero, suc, ◌≡◌, ◌≤◌, ◌<◌, refl, Bool, true, false, not, ◌&&◌, none, some, List, [], ◌∷◌, ◌==◌,
  ==→≡, Bool-cases, Option-cases, inl, inr, is_none, leb, length, first_where, exists_where,
  rows_where, update_where, arith,
}
use saps_case_dockets.Rows.{first_where_sound, first_where_found}
use saps_case_dockets.Text.{Text}
use saps_case_dockets.Schema.{World, User, AuthSession}
use saps_case_dockets.Tx.Rules.{
  Ensures, Ensures-assoc, Ensures-gets, Ensures-last, Ensures-pure, Ensures-utcnow, Ensures-weaken,
}
use saps_case_dockets.Tx.Commits.Rules.{Ensures-service_call, Ensures-commit, Ensures-put_signins}
use saps_case_dockets.Authentication.{
  Client, find_user, find_session, by_refresh_hash, hash_refresh_token,
}
use saps_case_dockets.Authentication.Steps.{Ensures-auth_audit, Ensures-deny_if}
use saps_case_dockets.Authentication.Rotation.{
  is_of, chain, session_chain, is_in, revoke_session_chain, logout,
}
use saps_case_dockets.Authentication.Rotation.Once.{Named, Ensures-refresh_session}

-- a session with that identifier is among them
abbrev pub has_id : List AuthSession → ℕ → Bool
has_id rows i = exists_where (λ x. x.id == i) rows

-- The user's session `id`, and those that replaced it, one after the other.
pub data Descends (rows : List AuthSession) (user_id id : ℕ) : ℕ → Type 0 where
  itself : exists_where (is_of user_id id) rows ≡ true → Descends rows user_id id id
  replaced :
      {i j : ℕ} (s : AuthSession)
      → Descends rows user_id id i
      → first_where (is_of user_id i) rows ≡ some s
      → s.replaced_by_session_id ≡ some j
      → exists_where (is_of user_id j) rows ≡ true
      → Descends rows user_id id j

abbrev others : ℕ → ℕ → List AuthSession → List AuthSession
others user_id id rows = rows_where (λ x. not (is_of user_id id x)) rows

first-others :
    (user_id i j : ℕ) (rows : List AuthSession)
    → (i == j) ≡ false
    → first_where (is_of user_id i) (others user_id j rows) ≡ first_where (is_of user_id i) rows
unfolding first_where rows_where
first-others user_id i j [] h = refl
first-others user_id i j (x ∷ rows) h = ground (arith, first-others user_id i j rows h)

exists-others :
    (user_id i j : ℕ) (rows : List AuthSession)
    → (i == j) ≡ false
    → exists_where (is_of user_id i) (others user_id j rows) ≡ exists_where (is_of user_id i) rows
unfolding exists_where rows_where
exists-others user_id i j [] h = refl
exists-others user_id i j (x ∷ rows) h = ground (arith, exists-others user_id i j rows h)

length-others_le :
    (user_id j : ℕ) (rows : List AuthSession) → length (others user_id j rows) ≤ length rows
unfolding rows_where
length-others_le user_id j [] = omega arith
length-others_le user_id j (x ∷ rows) = ground (arith, length-others_le user_id j rows)

length-others_lt :
    (user_id j : ℕ) (rows : List AuthSession) {s : AuthSession}
    → first_where (is_of user_id j) rows ≡ some s
    → length (others user_id j rows) < length rows
unfolding rows_where first_where
length-others_lt user_id j [] h = cc
length-others_lt user_id j (x ∷ rows) {s} h =
    ground (arith, length-others_le user_id j rows, length-others_lt user_id j rows {s = s})

module _ (fuel user_id id : ℕ) (rows : List AuthSession) where
  chain-gone : first_where (is_of user_id id) rows ≡ none → chain (suc fuel) user_id id rows ≡ []
  unfolding chain
  chain-gone h = rw (chain, h) refl

  chain-last :
      (s : AuthSession)
      → first_where (is_of user_id id) rows ≡ some s
      → s.replaced_by_session_id ≡ none
      → chain (suc fuel) user_id id rows ≡ s ∷ []
  unfolding chain
  chain-last s h e = rw (chain, h, e) refl

  chain-next :
      (s : AuthSession) (next : ℕ)
      → first_where (is_of user_id id) rows ≡ some s
      → s.replaced_by_session_id ≡ some next
      → chain (suc fuel) user_id id rows ≡ s ∷ chain fuel user_id next (others user_id id rows)
  unfolding chain
  chain-next s next h e = rw (chain, h, e) refl

  met_id : {s : AuthSession} → first_where (is_of user_id id) rows ≡ some s → s.id ≡ id
  met_id {s} h = ground (arith, first_where_sound (is_of user_id id) rows {x = s} h)

  -- the chain begins with the session that is asked for
  chain-head :
      exists_where (is_of user_id id) rows ≡ true
      → has_id (chain (suc fuel) user_id id rows) id ≡ true
  unfolding exists_where
  chain-head e =
      let (s, met) = first_where_found (is_of user_id id) rows e in
      elim (Option-cases s.replaced_by_session_id) [
        | inl last ↦ rw (chain-last s met last) (ground (arith, met_id met))
        | inr (next, more) ↦ rw (chain-next s next met more) (ground (arith, met_id met))
      ]

chain-head_fuel :
    (fuel user_id id : ℕ) (rows : List AuthSession)
    → length rows ≤ fuel
    → exists_where (is_of user_id id) rows ≡ true
    → has_id (chain fuel user_id id rows) id ≡ true
unfolding exists_where
chain-head_fuel zero user_id id [] h e = cc
chain-head_fuel zero user_id id (x ∷ rows) h e = absurd (omega (arith, h))
chain-head_fuel (suc fuel) user_id id rows h e = chain-head fuel user_id id rows e

chain-zero : (user_id id : ℕ) (rows : List AuthSession) → chain zero user_id id rows ≡ []
unfolding chain
chain-zero user_id id rows = refl

same_next :
    (user_id id i j next : ℕ) (rows : List AuthSession) (s s0 : AuthSession)
    → i ≡ id
    → first_where (is_of user_id id) rows ≡ some s0
    → s0.replaced_by_session_id ≡ some next
    → first_where (is_of user_id i) rows ≡ some s
    → s.replaced_by_session_id ≡ some j
    → j ≡ next
same_next user_id id i j next rows s s0 here met more found link = cc

in_tail :
    (s : AuthSession) (j : ℕ) (rows : List AuthSession)
    → has_id rows j ≡ true
    → has_id (s ∷ rows) j ≡ true
unfolding exists_where
in_tail s j rows h = ground (arith, h)

after_head :
    (fuel user_id id : ℕ) (rows : List AuthSession) (i j : ℕ) (s s0 : AuthSession) (next : ℕ)
    → length rows ≤ suc fuel
    → first_where (is_of user_id id) rows ≡ some s0
    → s0.replaced_by_session_id ≡ some next
    → first_where (is_of user_id i) rows ≡ some s
    → s.replaced_by_session_id ≡ some j
    → exists_where (is_of user_id j) rows ≡ true
    → has_id (s0 ∷ chain fuel user_id next (others user_id id rows)) i ≡ true
    → (has_id (chain fuel user_id next (others user_id id rows)) i ≡ true
        → first_where (is_of user_id i) (others user_id id rows) ≡ some s
        → exists_where (is_of user_id j) (others user_id id rows) ≡ true
        → has_id (chain fuel user_id next (others user_id id rows)) j ≡ true)
    → has_id (s0 ∷ chain fuel user_id next (others user_id id rows)) j ≡ true
unfolding exists_where
after_head fuel user_id id rows i j s s0 next h met more found link e m ih =
    elim (Bool-cases (j == id)) [
      | inl same ↦ ground (arith, same, met_id fuel user_id id rows met)
      | inr other ↦ elim (Bool-cases (i == id)) [
        | inl here ↦ in_tail s0 j _ (
            rw (same_next user_id id i j next rows s s0 (==→≡ i id here) met more found link) (
              chain-head_fuel fuel user_id next (others user_id id rows)
                (omega (arith, h, length-others_lt user_id id rows met))
                (rw
                  (← (same_next user_id id i j next rows s s0 (==→≡ i id here) met more found link))
                  (rw (exists-others user_id j id rows other) e))))
        | inr apart ↦ in_tail s0 j _ (
            ih (ground (arith, m, apart, met_id fuel user_id id rows met))
              (rw (first-others user_id i id rows apart) found)
              (rw (exists-others user_id j id rows other) e))
      ]
    ]

-- and holds, with a session, the one that replaced it
chain-closed :
    (fuel user_id id : ℕ) (rows : List AuthSession) (i j : ℕ) (s : AuthSession)
    → length rows ≤ fuel
    → has_id (chain fuel user_id id rows) i ≡ true
    → first_where (is_of user_id i) rows ≡ some s
    → s.replaced_by_session_id ≡ some j
    → exists_where (is_of user_id j) rows ≡ true
    → has_id (chain fuel user_id id rows) j ≡ true
unfolding exists_where
chain-closed zero user_id id rows i j s h m found link e =
    ground (arith, m, chain-zero user_id id rows)
chain-closed (suc fuel) user_id id rows i j s h m found link e =
    elim (Option-cases (first_where (is_of user_id id) rows)) [
      | inl gone ↦ ground (arith, m, chain-gone fuel user_id id rows gone)
      | inr (s0, met) ↦ elim (Option-cases s0.replaced_by_session_id) [
        | inl last ↦
            ground (
              arith,
              m,
              chain-last fuel user_id id rows s0 met last,
              met_id fuel user_id id rows met,
            )
        | inr (next, more) ↦ rw (chain-next fuel user_id id rows s0 next met more) (
            after_head fuel user_id id rows i j s s0 next h met more found link e
              (rw (chain-next fuel user_id id rows s0 next met more) at m)
              (λ m' found' e'.
                chain-closed fuel user_id next (others user_id id rows) i j s
                  (omega (arith, h, length-others_lt user_id id rows met)) m' found' link e'))
      ]
    ]

-- The chain with as many steps as there are sessions misses none: whatever the replacements are, also
-- in a circle, each session that replaced the first, one after the other, is in it.
pub Descends-in :
    (rows : List AuthSession) (user_id id : ℕ) {j : ℕ}
    → Descends rows user_id id j
    → has_id (chain (length rows) user_id id rows) j ≡ true
Descends-in rows user_id id (itself e) =
    chain-head_fuel (length rows) user_id id rows (omega arith) e
Descends-in rows user_id id (replaced {i} {j} s d found link e) =
    chain-closed (length rows) user_id id rows i j s (omega arith) (Descends-in rows user_id id d)
      found link e

is_in_of :
    (rows : List AuthSession) (s : AuthSession) (j : ℕ)
    → has_id rows j ≡ true
    → (s.id == j) ≡ true
    → is_in rows s ≡ true
is_in_of rows s j h e = rw (==→≡ s.id j e) h

-- a session of that identifier that is not revoked
abbrev pub is_live : ℕ → AuthSession → Bool
is_live j s = s.id == j && is_none s.revoked_at

abbrev pub revoke_all : List AuthSession → ℕ → List AuthSession → List AuthSession
revoke_all family now rows =
    update_where (λ s. is_in family s && is_none s.revoked_at)
      (λ s. record s { revoked_at = some now }) rows

pub revoke_all-dead :
    (family : List AuthSession) (now j : ℕ) (rows : List AuthSession)
    → has_id family j ≡ true
    → exists_where (is_live j) (revoke_all family now rows) ≡ false
unfolding update_where exists_where
revoke_all-dead family now j [] h = refl
revoke_all-dead family now j (s ∷ rows) h =
    ground (arith, revoke_all-dead family now j rows h, is_in_of family s j h)

-- What an answered logout says of its request.
pub record Ended (token : Text) (w : World) (out : Unit {0}) (w' : World) : Type 0 where
  pub user : User
  pub row : AuthSession
  pub now : ℕ
  pub named : Named token w user row
  pub unexpired : leb row.expires_at now ≡ false
  pub revoked_at : ℕ
  pub same_accounts : w'.access ≡ w.access
  pub same_platform : w'.platform ≡ w.platform
  pub written : w'.sessions ≡ revoke_all (session_chain w user.id row.id) revoked_at w.sessions

pub logout-Ended :
    (client : Client) (token : Text) (w : World) → Ensures (logout client token w) (Ended token w)
unfolding logout by_refresh_hash hash_refresh_token find_user find_session revoke_session_chain
    session_chain
logout-Ended client token w = Ensures-service_call _ _ _ (
    Ensures-refresh_session client token _ _ λ user row named. Ensures-utcnow _ _ (
      Ensures-deny_if _ client _ _ _ _ _ λ unexpired. Ensures-assoc _ _ _ _ (
        Ensures-gets _ _ _ (
          Ensures-assoc _ _ _ _ (
            Ensures-utcnow _ _ (
              Ensures-put_signins _ _ _ (
                Ensures-auth_audit client _ _ _ _ _ λ comms. Ensures-last _ _ (
                  Ensures-commit _ _ (
                    Ensures-pure _ _ (record {
                      user = user;
                      row = row;
                      now = w.platform.clock w.reads;
                      named = record {
                        candidate = named.candidate;
                        known = named.known;
                        account = named.account;
                        found = named.found;
                      };
                      unexpired = unexpired;
                      same_accounts = refl;
                      revoked_at = _;
                      same_platform = refl;
                      written = refl;
                    }))))))))))

-- a token names one session
Named-unique :
    (token : Text) (w : World) (u v : User) (r s : AuthSession)
    → Named token w u r
    → Named token w v s
    → (u ≡ v) × (r ≡ s)
Named-unique token w u v r s m n =
    ground (arith, m.known, n.known, m.account, n.account, m.found, n.found)

pub Ended-dead :
    (token : Text) (w w' : World) (out : Unit {0}) (user : User) (row : AuthSession) (j : ℕ)
    → Named token w user row
    → Descends w.sessions user.id row.id j
    → Ended token w out w'
    → exists_where (is_live j) w'.sessions ≡ false
unfolding session_chain
Ended-dead token w w' out user row j named d done =
    let (eu, er) = Named-unique token w user done.user row done.row named done.named in
    rw done.written
      (revoke_all-dead _ _ j _ (rw (← eu) (rw (← er) (Descends-in w.sessions user.id row.id d))))

-- A logout that returns leaves the session that its token names revoked, and every session that
-- replaced it, one after the other.
pub logout-revokes :
    (client : Client) (token : Text) (w : World) (user : User) (row : AuthSession) (j : ℕ)
    → Named token w user row
    → Descends w.sessions user.id row.id j
    → Ensures (logout client token w) λ _ w'. exists_where (is_live j) w'.sessions ≡ false
logout-revokes client token w user row j named d =
    Ensures-weaken _ _ (logout-Ended client token w)
      λ out w' done. Ended-dead token w w' out user row j named d done
