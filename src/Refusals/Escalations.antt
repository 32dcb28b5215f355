-- ===== src/Refusals/Escalations.antt =====
-- What an officer may do with an escalation.
use saps_case_dockets.Prelude.{
  true_of, ℕ, ◌≡◌, refl, Bool, true, false, not, ◌&&◌, ◌||◌, Option, none, some, ◌==◌, first_where,
  is_none, if◌then◌else◌, arith,
}
use saps_case_dockets.Text.{Text}
use saps_case_dockets.Schema.{World, RefusalEscalation, EscalationStatus, Officer}
use saps_case_dockets.Schema.{ncc_officer, station_commander}
use saps_case_dockets.Tx.{Tx, ◌>>=◌}
use saps_case_dockets.Tx.Rules.{
  Ensures, cases_of, Ensures-transactional, Ensures-gets, Ensures-raise_if, Ensures-or_raise,
  Ensures-pure, Ensures-utcnow, Ensures-keeps, Ensures-bind, Ensures-assoc, Ensures-then,
}
use saps_case_dockets.Access.{has_role}
use saps_case_dockets.Notify.Quiet.{Keeps-audit}
use saps_case_dockets.Store.Effects.{Ensures-update_escalation}
use saps_case_dockets.Store.Writes.{change_escalation}
use saps_case_dockets.Refusals
use saps_case_dockets.Refusals.{
  in_scope, escalation_scope, is_open, is_resolved, update_escalation_row, acknowledge, resolve,
}

-- What the scope of a request is: the roles, and the own profile where the role is a commander's.
pub record ScopeOf (user_id : ℕ) (w : World) (is_ncc : Bool) (commander : Option Officer)
    : Type 0 where
  pub ncc : is_ncc ≡ has_role w.access user_id ncc_officer
  pub profile : commander ≡ (
      if has_role w.access user_id station_commander
      then first_where (λ o. o.user_id == user_id && o.is_active) w.officers
      else none)
  pub some_role : (is_ncc || not (is_none commander)) ≡ true

either_of : (a b : Bool) → (not a && b) ≡ false → (a || not b) ≡ true
either_of a b h = ground arith

module _ {ℓ κ} {B : Type ℓ} {Q : B → World → Type κ} where
  Ensures-escalation_scope :
      (user_id : ℕ) (w : World) (k : Bool × Option Officer → Tx B)
      → ((is_ncc : Bool) (commander : Option Officer)
          → ScopeOf user_id w is_ncc commander
          → Ensures (k (is_ncc, commander) w) Q)
      → Ensures ((escalation_scope user_id >>= k) w) Q
  unfolding escalation_scope
  Ensures-escalation_scope user_id w k next = Ensures-assoc _ _ _ _ (
      Ensures-gets _ _ _ (
        Ensures-assoc _ _ _ _ (
          Ensures-gets _ _ _ (
            Ensures-assoc _ _ _ _ (
              Ensures-gets _ _ _ (
                Ensures-assoc _ _ _ _ (
                  Ensures-raise_if _ _ _ _ λ granted. Ensures-then _ _ _ (
                    next _ _ (record {
                      ncc = refl;
                      profile = refl;
                      some_role = either_of (has_role w.access user_id ncc_officer) _ granted;
                    })))))))))

-- an acknowledged, and a resolved, escalation
abbrev pub marked : ℕ → ℕ → Option Text → RefusalEscalation → RefusalEscalation
marked user_id now none e = record e {
  status = EscalationStatus.acknowledged;
  acknowledged_by_user_id = some user_id;
  acknowledged_at = some now;
}
marked user_id now (some notes) e = record e {
  status = EscalationStatus.resolved;
  resolved_by_user_id = some user_id;
  resolved_at = some now;
  resolution_notes = some notes;
}

-- the status that allows the change
abbrev pub may_mark : Option Text → EscalationStatus → Bool
may_mark none status = is_open status
may_mark (some notes) status = not (is_resolved status)

not_of : (b : Bool) → b ≡ false → not b ≡ true
not_of b h = ground arith

Ensures-change_escalation :
    (user_id : ℕ) (row : RefusalEscalation) (now : ℕ) (notes : Option Text) (w : World)
    → Ensures (Refusals.change_escalation user_id row now notes w) (λ r w'.
      (may_mark notes row.status ≡ true)
      × (r.0 ≡ marked user_id now notes row)
      × (w'.cases ≡ change_escalation row.id (marked user_id now notes) w.cases))
unfolding Refusals.change_escalation
Ensures-change_escalation user_id row now none w =
    Ensures-raise_if _ _ _ _
      λ may. Ensures-update_escalation _ _ _ _ λ fits. Ensures-pure _ _ (true_of _ may, refl, refl)
Ensures-change_escalation user_id row now (some notes) w =
    Ensures-raise_if _ _ _ _
      λ may. Ensures-update_escalation _ _ _ _ λ fits. Ensures-pure _ _ (not_of _ may, refl, refl)

-- What an answered change of an escalation says of its request.
pub record Marked (user_id escalation_id : ℕ) (notes : Option Text) (w : World)
    (out : RefusalEscalation) (w' : World) : Type 0 where
  pub is_ncc : Bool
  pub commander : Option Officer
  pub row : RefusalEscalation
  pub scoped : ScopeOf user_id w is_ncc commander
  pub known :
      first_where (λ e. e.id == escalation_id && in_scope w.cases is_ncc commander e) w.escalations
      ≡ some row
  pub may : may_mark notes row.status ≡ true
  pub answered : out ≡ marked user_id (w.platform.clock w.reads) notes row
  pub written :
      w'.cases ≡ change_escalation row.id (marked user_id (w.platform.clock w.reads) notes) w.cases

Ensures-update_escalation_row :
    (user_id escalation_id : ℕ) (notes : Option Text) (w : World)
    → Ensures
        (update_escalation_row user_id escalation_id notes w)
        (Marked user_id escalation_id notes w)
unfolding update_escalation_row
Ensures-update_escalation_row user_id escalation_id notes w = Ensures-transactional _ _ _ (
    Ensures-escalation_scope _ _ _ λ is_ncc commander scoped. Ensures-gets _ _ _ (
      Ensures-or_raise _ _ _ _ λ row found. Ensures-utcnow _ _ (
        Ensures-bind _ _ _ _ (Ensures-change_escalation user_id row _ notes _) λ changed w1 done.
          Ensures-gets _ _ _ (
            Ensures-or_raise _ _ _ _ λ complaint _.
              Ensures-keeps cases_of _ _ _ (Keeps-audit cases_of (λ _ _. refl) _ _ _ _ _)
                λ _ w2 same. Ensures-pure _ _ (record {
                  is_ncc = is_ncc;
                  commander = commander;
                  row = row;
                  scoped = scoped;
                  known = found;
                  may = done.0;
                  answered = done.1;
                  written = rw (← same) at done.2;
                })))))

-- An acknowledgement or a resolution that returns was made by a user whose roles and station put
-- the escalation in reach, of an open escalation or of one that was not yet resolved; it marks that
-- escalation alone.
pub escalation-Marked :
    (user_id escalation_id : ℕ) (notes : Text) (w : World)
    → Ensures (acknowledge user_id escalation_id w) (Marked user_id escalation_id none w)
      × Ensures
          (resolve user_id escalation_id notes w)
          (Marked user_id escalation_id (some notes) w)
unfolding acknowledge resolve
escalation-Marked user_id escalation_id notes w = (
  Ensures-update_escalation_row user_id escalation_id none w,
  Ensures-update_escalation_row user_id escalation_id (some notes) w,
)
