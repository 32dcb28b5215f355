-- ===== src/Listings.antt =====
-- The paged lists of the docket, investigation and evidence services: each checks the scope, reads
-- the rows in order, and records that they were read.
pub mod Reads
pub mod Answers
pub mod Pages
use saps_case_dockets.Prelude.{
  ℕ, zero, suc, Bool, true, false, not, ◌&&◌, ◌||◌, Option, none, some, List, [], ◌∷◌, ◌==◌, ltb,
  leb, if◌then◌else◌, first_where, exists_where, rows_where, is_none,
}
use saps_case_dockets.Text.{Text, codes}
use saps_case_dockets.Schema.{
  World, Docket, DocketStatus, CaseAssignment, DocketStatusHistory, InvestigationNote, EvidenceItem,
  EvidenceCustodyEvent, same_docket_status, station_commander, investigating_officer,
}
use saps_case_dockets.Tx.{Tx, pure, gets, raise_if, for_each, transactional, ◌>>=◌, ◌>>◌}
use saps_case_dockets.Access.{active_officer_with_role, investigation_officer}
use saps_case_dockets.Notify.{audit}
use saps_case_dockets.Investigations.{scope, unavailable, docket_out, InvestigatorDocketOut}
use saps_case_dockets.Evidence.{item_scope, evidence_out, EvidenceOut}

-- `order_by(first, second)`: `b` may follow `a`
abbrev pub before {ℓ} : {A : Type ℓ} → (A → ℕ × ℕ) → A → A → Bool
before key a b = ltb (key a).0 (key b).0 || (((key a).0 == (key b).0) && leb (key a).1 (key b).1)

module _ {ℓ} {A : Type ℓ} where
  unfoldable pub insert_by : (A → A → Bool) → A → List A → List A
  insert_by may_follow x [] = x ∷ []
  insert_by may_follow x (y ∷ ys) =
      let rest = insert_by may_follow x ys in if may_follow x y then x ∷ y ∷ ys else y ∷ rest

  -- the rows in the order of a query
  unfoldable pub ordered : (A → A → Bool) → List A → List A
  unfolding insert_by
  ordered may_follow [] = []
  ordered may_follow (x ∷ xs) = insert_by may_follow x (ordered may_follow xs)

  abbrev pub take : ℕ → List A → List A
  take zero xs = []
  take (suc n) [] = []
  take (suc n) (x ∷ xs) = x ∷ take n xs

  abbrev pub drop : ℕ → List A → List A
  drop zero xs = xs
  drop (suc n) [] = []
  drop (suc n) (x ∷ xs) = drop n xs

  -- `.limit(limit).offset(offset)`
  unfoldable pub page : ℕ → ℕ → List A → List A
  page limit offset xs = take limit (drop offset xs)

-- `[f(row) for row in rows]` of calls
unfoldable pub map_each {ℓ κ} : {A : Type ℓ} {B : Type κ} → (A → Tx B) → List A → Tx (List B)
map_each f [] = pure []
map_each f (x ∷ xs) = let rest = map_each f xs in f x >>= λ y. rest >>= λ ys. pure (y ∷ ys)

-- `InvestigationService.assignments`
unfoldable pub list_assignments : ℕ → ℕ → ℕ → ℕ → Tx (List CaseAssignment)
list_assignments user_id docket_id limit offset = transactional unavailable do
  scoped ← scope user_id docket_id true false
  rows ← gets (λ w. page limit offset (
      ordered (before (λ a. (a.assigned_at, a.id)))
        (rows_where (λ a. a.docket_id == scoped.1.id) w.assignments)))
  audit user_id "docket.assignments.view" "docket" (some scoped.1.id) (some scoped.0.station_id)
  pure rows

-- `InvestigationService.mine`; the join meets a docket once, as it has one current assignment at most
unfoldable pub list_mine : ℕ → ℕ → ℕ → Tx (List InvestigatorDocketOut)
list_mine user_id limit offset = transactional unavailable do
  officer ← investigation_officer user_id investigating_officer
  rows ← gets (λ w. page limit offset (
      ordered (before (λ d. (d.opened_at, d.id))) (
        rows_where
          (λ d.
            exists_where (λ c. c.id == d.complaint_id && c.station_id == officer.station_id)
              w.complaints
            && exists_where
                (λ a.
                  a.docket_id == d.id
                  && a.investigating_officer_id == officer.id
                  && is_none a.unassigned_at)
                w.assignments)
          w.dockets)))
  result ← map_each (λ row. docket_out row user_id false) rows
  audit user_id "docket.list_assigned" "docket" none (some officer.station_id)
  pure result

-- `InvestigationService.status_history`
unfoldable pub list_status_history : ℕ → ℕ → ℕ → ℕ → Tx (List DocketStatusHistory)
list_status_history user_id docket_id limit offset = transactional unavailable do
  scoped ← scope user_id docket_id false false
  rows ← gets (λ w. page limit offset (
      ordered (before (λ h. (h.changed_at, h.id)))
        (rows_where (λ h. h.docket_id == scoped.1.id) w.history)))
  audit user_id "case.status_history.view" "docket" (some scoped.1.id) (some scoped.0.station_id)
  pure rows

-- `InvestigationService.notes`
unfoldable pub list_notes : ℕ → ℕ → ℕ → ℕ → Tx (List InvestigationNote)
list_notes user_id docket_id limit offset = transactional unavailable do
  scoped ← scope user_id docket_id false false
  rows ← gets (λ w. page limit offset (
      ordered (before (λ n. (n.created_at, n.id)))
        (rows_where (λ n. n.docket_id == scoped.1.id) w.notes)))
  audit user_id "case.notes.view" "docket" (some scoped.1.id) (some scoped.0.station_id)
  pure rows

-- `EvidenceService.list_items`
unfoldable pub list_items : ℕ → ℕ → ℕ → ℕ → Tx (List EvidenceOut)
list_items user_id docket_id limit offset = transactional unavailable do
  scoped ← scope user_id docket_id false false
  rows ← gets (λ w. page limit offset (
      ordered (before (λ i. (i.registered_at, i.id)))
        (rows_where (λ i. i.docket_id == scoped.1.id) w.evidence_items)))
  result ← map_each evidence_out rows
  audit user_id "evidence.list" "docket" (some scoped.1.id) (some scoped.0.station_id)
  pure result

-- `EvidenceService.custody_history`
unfoldable pub list_custody : ℕ → ℕ → ℕ → ℕ → Tx (List EvidenceCustodyEvent)
list_custody user_id evidence_id limit offset = transactional unavailable do
  scoped ← item_scope user_id evidence_id false
  rows ← gets (λ w. page limit offset (
      ordered (before (λ e. (e.occurred_at, e.id)))
        (rows_where (λ e. e.evidence_item_id == scoped.1.id) w.custody_events)))
  audit user_id "evidence.custody.view" "evidence_item" (some scoped.1.id)
      (some scoped.0.0.station_id)
  pure rows

-- `status` of the query, if it is given
abbrev pub has_status : Option DocketStatus → DocketStatus → Bool
has_status none status = true
has_status (some s) status = same_docket_status status s

-- `DocketService.list_for_commander`; the query orders by both columns downwards
unfoldable pub list_for_commander : ℕ → Option DocketStatus → ℕ → ℕ → Tx (List Docket)
list_for_commander user_id status limit offset = transactional (codes "Docket queue unavailable") do
  officer ← active_officer_with_role user_id station_commander
  rows ← gets (λ w. page limit offset (
      ordered (λ a b. before (λ d. (d.opened_at, d.id)) b a)
        (rows_where
          (λ d.
            exists_where (λ c. c.id == d.complaint_id && c.station_id == officer.station_id)
              w.complaints
            && has_status status d.status)
          w.dockets)))
  for_each rows
      λ row. audit user_id "docket.view_station" "docket" (some row.id) (some officer.station_id)
  audit user_id "docket.list_station" "station" (some officer.station_id) (some officer.station_id)
  pure rows
