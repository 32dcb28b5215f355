-- ===== src/Listings/Answers.antt =====
-- What the lists of a docket and of an item of evidence answer
-- (app/modules/investigations/service.py and app/modules/evidence/service.py).
use saps_case_dockets.Prelude.{ℕ, Bool, true, false, List, ◌==◌, refl}
use saps_case_dockets.Schema.{World, Docket, Officer, EvidenceItem, EvidenceCustodyEvent}
use saps_case_dockets.Tx.Rules.{
  Ensures, cases_of, Ensures-transactional, Ensures-gets, Ensures-keeps, Ensures-pure,
}
use saps_case_dockets.Notify.Quiet.{Keeps-audit}
use saps_case_dockets.Investigations.Scope.{InScope, Ensures-scope}
use saps_case_dockets.Evidence.Custody.{InItemScope, Ensures-item_scope}
use saps_case_dockets.Listings.{list_assignments, list_status_history, list_notes, list_custody}
use saps_case_dockets.Listings.Pages.{IsPage, page-IsPage}

-- A page of the rows of a docket that the user may read, as a commander or as its investigator.
pub record DocketPage {ℓ} {A : Type ℓ} (commander : Bool) (key : A → ℕ × ℕ) (docket_of : A → ℕ)
    (user_id docket_id limit offset : ℕ) (w : World) (table out : List A) : Type ℓ where
  pub officer : Officer
  pub docket : Docket
  pub scoped : InScope user_id docket_id commander false w officer docket
  pub listed : IsPage key (λ row. docket_of row == docket.id) limit offset table out

-- A page of the custody events of an item that the user may read.
pub record CustodyPage (user_id evidence_id limit offset : ℕ) (w : World)
    (out : List EvidenceCustodyEvent) : Type 0 where
  pub officer : Officer
  pub docket : Docket
  pub item : EvidenceItem
  pub scoped : InItemScope user_id evidence_id false w officer docket item
  pub listed :
      IsPage
        (λ e. (e.occurred_at, e.id))
        (λ e. e.evidence_item_id == item.id)
        limit
        offset
        w.custody_events
        out

-- A list of the assignments of a docket that is answered was asked by a commander of its station; a
-- list of its status history or notes, or of the custody events of one of its items, by the
-- investigator to whom it is assigned. It holds the rows of that docket or item, in the order of their
-- time and then of their identifier, from the offset on, up to the limit and no fewer as long as
-- there are more.
pub lists-IsPage :
    (user_id id limit offset : ℕ) (w : World)
    → Ensures (list_assignments user_id id limit offset w) (λ out _.
      DocketPage true
        (λ a. (a.assigned_at, a.id))
        (λ a. a.docket_id)
        user_id
        id
        limit
        offset
        w
        w.assignments
        out)
      × Ensures (list_status_history user_id id limit offset w) (λ out _.
        DocketPage false
          (λ h. (h.changed_at, h.id))
          (λ h. h.docket_id)
          user_id
          id
          limit
          offset
          w
          w.history
          out)
      × Ensures (list_notes user_id id limit offset w) (λ out _.
        DocketPage false
          (λ n. (n.created_at, n.id))
          (λ n. n.docket_id)
          user_id
          id
          limit
          offset
          w
          w.notes
          out)
      × Ensures
          (list_custody user_id id limit offset w)
          (λ out _. CustodyPage user_id id limit offset w out)
unfolding list_assignments list_status_history list_notes list_custody
lists-IsPage user_id id limit offset w = (
  Ensures-transactional _ _ _ (
      Ensures-scope _ _ _ _ _ _ λ officer docket scoped. Ensures-gets _ _ _ (
        Ensures-keeps cases_of _ _ _ (Keeps-audit cases_of (λ _ _. refl) _ _ _ _ _) λ _ _ _.
          Ensures-pure _ _ (record {
            officer = officer;
            docket = docket;
            scoped = scoped;
            listed = page-IsPage _ _ limit offset w.assignments;
          }))),
  Ensures-transactional _ _ _ (
      Ensures-scope _ _ _ _ _ _ λ officer docket scoped. Ensures-gets _ _ _ (
        Ensures-keeps cases_of _ _ _ (Keeps-audit cases_of (λ _ _. refl) _ _ _ _ _) λ _ _ _.
          Ensures-pure _ _ (record {
            officer = officer;
            docket = docket;
            scoped = scoped;
            listed = page-IsPage _ _ limit offset w.history;
          }))),
  Ensures-transactional _ _ _ (
      Ensures-scope _ _ _ _ _ _ λ officer docket scoped. Ensures-gets _ _ _ (
        Ensures-keeps cases_of _ _ _ (Keeps-audit cases_of (λ _ _. refl) _ _ _ _ _) λ _ _ _.
          Ensures-pure _ _ (record {
            officer = officer;
            docket = docket;
            scoped = scoped;
            listed = page-IsPage _ _ limit offset w.notes;
          }))),
  Ensures-transactional _ _ _ (
      Ensures-item_scope _ _ _ _ _ λ officer docket item scoped. Ensures-gets _ _ _ (
        Ensures-keeps cases_of _ _ _ (Keeps-audit cases_of (λ _ _. refl) _ _ _ _ _) λ _ _ _.
          Ensures-pure _ _ (record {
            officer = officer;
            docket = docket;
            item = item;
            scoped = scoped;
            listed = page-IsPage _ _ limit offset w.custody_events;
          }))),
)
