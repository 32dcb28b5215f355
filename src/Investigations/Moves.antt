-- ===== src/Investigations/Moves.antt =====
-- One change of a docket's status, as `assign` and `update_status` make it.
use saps_case_dockets.Prelude.{ℕ, ◌≡◌, refl, ap, false, some}
use saps_case_dockets.Text.{Text}
use saps_case_dockets.Schema.{World, CaseDb, Docket, DocketStatus, DocketStatusHistory}
use saps_case_dockets.Tx.{Tx, ◌>>=◌}
use saps_case_dockets.Tx.Rules.{Ensures, Ensures-pure, Ensures-utcnow, Ensures-new_id, Ensures-then}
use saps_case_dockets.Store.{unchanged}
use saps_case_dockets.Store.Effects.{Ensures-update_docket, Ensures-insert_history}
use saps_case_dockets.Store.Writes.{change_docket, add_history}
use saps_case_dockets.Investigations.{with_status, closing_time, transition}

-- the entry that a change of status adds to the history
abbrev pub status_entry : ℕ → Docket → ℕ → DocketStatus → Text → ℕ → DocketStatusHistory
status_entry id docket user_id status reason now = record {
  id = id;
  docket_id = docket.id;
  from_status = some docket.status;
  to_status = status;
  changed_by_user_id = user_id;
  change_reason = some reason;
  changed_at = now;
}

-- One entry and the docket's new status were written.
pub record Moved (docket : Docket) (user_id : ℕ) (status : DocketStatus) (reason : Text)
    (c : CaseDb) (entry : DocketStatusHistory) (c' : CaseDb) : Type 0 where
  pub closing : ℕ
  pub entered : entry ≡ status_entry entry.id docket user_id status reason entry.changed_at
  pub is_move : unchanged (some docket.status) status ≡ false
  pub written :
      c' ≡ change_docket docket.id (with_status status closing reason) (add_history entry c)

module _ {ℓ κ} {B : Type ℓ} {Q : B → World → Type κ} where
  Ensures-closing_time :
      (status : DocketStatus) (w : World) (k : ℕ → Tx B)
      → ((at : ℕ) (w' : World) → w'.cases ≡ w.cases → Ensures (k at w') Q)
      → Ensures ((closing_time status >>= k) w) Q
  Ensures-closing_time DocketStatus.closed w k next = Ensures-utcnow _ _ (next _ _ refl)
  Ensures-closing_time _ w k next = Ensures-then _ _ _ (next _ _ refl)

pub Ensures-transition :
    (docket : Docket) (user_id : ℕ) (status : DocketStatus) (reason : Text) (w : World)
    → Ensures
        (transition docket user_id status reason w)
        (λ entry w'. Moved docket user_id status reason w.cases entry w'.cases)
unfolding transition
Ensures-transition docket user_id status reason w = Ensures-utcnow _ _ (
    Ensures-new_id _ _ (
      Ensures-insert_history _ _ _ λ moves free. Ensures-closing_time _ _ _ λ at w' same.
        Ensures-update_docket _ _ _ _ λ fits. Ensures-pure _ _ (record {
          closing = at;
          entered = refl;
          is_move = moves;
          written = ap (change_docket docket.id (with_status status at reason)) same;
        })))
