-- ===== src/Listings/Reads.antt =====
-- The calls that read, and the case tables.
use saps_case_dockets.Prelude.{String, ℕ, Bool, refl, Option, List, [], ◌∷◌}
use saps_case_dockets.Schema.{Docket, DocketStatus, EvidenceItem, RoleCode}
use saps_case_dockets.Tx.{Tx}
use saps_case_dockets.Tx.Rules.{
  Keeps, keeps_rules, cases_of, Keeps-transactional, Keeps-for_each, Keeps-pure, Keeps-bind,
}
use saps_case_dockets.Access.{active_officer_with_role, investigation_officer}
use saps_case_dockets.Notify.{audit}
use saps_case_dockets.Notify.Quiet.{Keeps-audit}
use saps_case_dockets.Dockets.{get_for_commander}
use saps_case_dockets.Investigations.{scope, docket_out, get_docket}
use saps_case_dockets.Evidence.{item_scope, evidence_out, get_item}
use saps_case_dockets.Listings.{
  map_each, list_assignments, list_mine, list_status_history, list_notes, list_items, list_custody,
  list_for_commander,
}

Keeps-read_audit :
    (actor : ℕ) (action entity : String) (id station : Option ℕ)
    → Keeps cases_of (audit actor action entity id station)
Keeps-read_audit actor action entity id station =
    Keeps-audit cases_of (λ _ _. refl) actor action entity id station

Keeps-active_officer_with_role :
    (user_id : ℕ) (role : RoleCode) → Keeps cases_of (active_officer_with_role user_id role)
unfolding active_officer_with_role
Keeps-active_officer_with_role user_id role = search keeps_rules depth 12

Keeps-investigation_officer :
    (user_id : ℕ) (role : RoleCode) → Keeps cases_of (investigation_officer user_id role)
unfolding investigation_officer
Keeps-investigation_officer user_id role = search keeps_rules depth 12

Keeps-scope :
    (user_id docket_id : ℕ) (commander writable : Bool)
    → Keeps cases_of (scope user_id docket_id commander writable)
unfolding scope
Keeps-scope user_id docket_id commander writable =
    search (keeps_rules, Keeps-investigation_officer) depth 16

Keeps-item_scope :
    (user_id evidence_id : ℕ) (writable : Bool)
    → Keeps cases_of (item_scope user_id evidence_id writable)
unfolding item_scope
Keeps-item_scope user_id evidence_id writable = search (keeps_rules, Keeps-scope) depth 16

Keeps-docket_out :
    (docket : Docket) (user_id : ℕ) (detail : Bool)
    → Keeps cases_of (docket_out docket user_id detail)
unfolding docket_out
Keeps-docket_out docket user_id detail = search keeps_rules depth 20

Keeps-evidence_out : (item : EvidenceItem) → Keeps cases_of (evidence_out item)
unfolding evidence_out
Keeps-evidence_out item = search keeps_rules

Keeps-map_each {ℓ κ} :
    {A : Type ℓ} {B : Type κ} (f : A → Tx B) (xs : List A)
    → ((a : A) → Keeps cases_of (f a))
    → Keeps cases_of (map_each f xs)
unfolding map_each
Keeps-map_each f [] k = Keeps-pure _ _
Keeps-map_each f (x ∷ xs) k =
    Keeps-bind _ _ _ (k x) λ y. Keeps-bind _ _ _ (Keeps-map_each f xs k) λ ys. Keeps-pure _ _

ruleset reads = (
  keeps_rules, Keeps-read_audit, Keeps-active_officer_with_role, Keeps-investigation_officer,
  Keeps-scope, Keeps-item_scope, Keeps-docket_out, Keeps-evidence_out,
)

-- No call that reads a docket, an item of evidence or a list of them changes the case tables,
-- whether it returns or raises.
pub reads-Keeps :
    (user_id id limit offset : ℕ) (status : Option DocketStatus)
    → Keeps cases_of (get_for_commander user_id id)
      × Keeps cases_of (get_docket user_id id)
      × Keeps cases_of (get_item user_id id)
      × Keeps cases_of (list_for_commander user_id status limit offset)
      × Keeps cases_of (list_assignments user_id id limit offset)
      × Keeps cases_of (list_mine user_id limit offset)
      × Keeps cases_of (list_status_history user_id id limit offset)
      × Keeps cases_of (list_notes user_id id limit offset)
      × Keeps cases_of (list_items user_id id limit offset)
      × Keeps cases_of (list_custody user_id id limit offset)
unfolding get_for_commander get_docket get_item list_for_commander list_assignments list_mine
    list_status_history list_notes list_items list_custody
reads-Keeps user_id id limit offset status = (
  Keeps-transactional _ _ _ (search reads depth 16),
  Keeps-transactional _ _ _ (search reads depth 16),
  Keeps-transactional _ _ _ (search reads depth 16),
  Keeps-transactional _ _ _ (search (reads, Keeps-for_each) depth 16),
  Keeps-transactional _ _ _ (search reads depth 16),
  Keeps-transactional _ _ _ (search (reads, Keeps-map_each) depth 16),
  Keeps-transactional _ _ _ (search reads depth 16),
  Keeps-transactional _ _ _ (search reads depth 16),
  Keeps-transactional _ _ _ (search (reads, Keeps-map_each) depth 16),
  Keeps-transactional _ _ _ (search reads depth 16),
)
