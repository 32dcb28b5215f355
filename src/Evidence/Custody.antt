-- ===== src/Evidence/Custody.antt =====
-- What a registration and a custody event do to the chain of custody.
use saps_case_dockets.Prelude.{
  true_of, equal_of, ℕ, ◌≡◌, refl, subst, Bool, true, false, not, ◌&&◌, ◌||◌, Option, none, some,
  ◌==◌, first_where, same_id, arith,
}
use saps_case_dockets.Schema.{
  World, Docket, Officer, EvidenceItem, EvidenceCustodyEvent, investigating_officer,
}
use saps_case_dockets.Tx.{Tx, ◌>>=◌}
use saps_case_dockets.Tx.Rules.{
  Ensures, cases_of, Ensures-transactional, Ensures-gets, Ensures-raise_if, Ensures-or_raise,
  Ensures-pure, Ensures-utcnow, Ensures-new_id, Ensures-keeps, Ensures-assoc, Ensures-then,
}
use saps_case_dockets.Access.{has_role}
use saps_case_dockets.Access.Officers.{Ensures-investigation_officer}
use saps_case_dockets.Notify.Quiet.{Keeps-audit}
use saps_case_dockets.Store.Effects.{Ensures-update_item, Ensures-insert_custody_event}
use saps_case_dockets.Store.Writes.{change_item, add_custody_event}
use saps_case_dockets.Investigations.Scope.{InScope, Ensures-scope}
use saps_case_dockets.Evidence.{
  custody_version, has_left, item_scope, CustodyAction, CustodyRequest, allows, status_behind,
  event_type_of, destination_of, moved_to, custody,
}

-- What the scope of a request on an item establishes.
pub record InItemScope (user_id evidence_id : ℕ) (writable : Bool) (w : World) (officer : Officer)
    (docket : Docket) (item : EvidenceItem) : Type 0 where
  pub known : first_where (λ i. i.id == evidence_id) w.evidence_items ≡ some item
  pub scoped : InScope user_id item.docket_id false writable w officer docket
  pub in_custody : (not writable || not (has_left item.status)) ≡ true

one_row : {o : Option EvidenceItem} {a b : EvidenceItem} → o ≡ some a → o ≡ some b → a ≡ b
one_row p q = cc

implied_not : (a b : Bool) → (a && b) ≡ false → (not a || not b) ≡ true
implied_not a b h = ground arith

same_id_of : (n : ℕ) (o : Option ℕ) → not (same_id (some n) o) ≡ false → o ≡ some n
same_id_of n o h = ground arith

-- Who holds the item behind an event of that kind.
abbrev pub Destined : CustodyAction → Officer → EvidenceItem → Option ℕ → World → Option ℕ → Type 0
Destined CustodyAction.transferred officer item to w destination =
    (target : Officer) × (first_where (λ o. same_id (some o.id) to) w.officers ≡ some target)
    × (target.station_id ≡ officer.station_id)
    × (has_role w.access target.user_id investigating_officer ≡ true)
    × (same_id (some target.id) item.current_custodian_officer_id ≡ false)
    × (destination ≡ some target.id)
Destined CustodyAction.released officer item to w destination = destination ≡ none
Destined CustodyAction.disposed officer item to w destination = destination ≡ none
Destined _ officer item to w destination = destination ≡ item.current_custodian_officer_id

module _ {ℓ κ} {B : Type ℓ} {Q : B → World → Type κ} where
  pub Ensures-item_scope :
      (user_id evidence_id : ℕ) (writable : Bool) (w : World)
      (k : (Officer × Docket) × EvidenceItem → Tx B)
      → ((officer : Officer) (docket : Docket) (item : EvidenceItem)
          → InItemScope user_id evidence_id writable w officer docket item
          → Ensures (k ((officer, docket), item) w) Q)
      → Ensures ((item_scope user_id evidence_id writable >>= k) w) Q
  unfolding item_scope
  Ensures-item_scope user_id evidence_id writable w k next = Ensures-assoc _ _ _ _ (
      Ensures-gets _ _ _ (
        Ensures-assoc _ _ _ _ (
          Ensures-or_raise _ _ _ _ λ parent found. Ensures-assoc _ _ _ _ (
            Ensures-scope _ _ _ _ _ _ λ officer docket scoped. Ensures-assoc _ _ _ _ (
              Ensures-gets _ _ _ (
                Ensures-assoc _ _ _ _ (
                  Ensures-or_raise _ _ _ _ λ item held. Ensures-assoc _ _ _ _ (
                    Ensures-raise_if _ _ _ _ λ here. Ensures-then _ _ _ (
                      next officer docket item (record {
                        known = held;
                        scoped =
                            subst
                              (λ (i : EvidenceItem).
                                InScope user_id i.docket_id false writable w officer docket)
                              (one_row found held) scoped;
                        in_custody = implied_not writable _ here;
                      }))))))))))

  Ensures-destination_of :
      (action : CustodyAction) (officer : Officer) (item : EvidenceItem) (to : Option ℕ) (w : World)
      (k : Option ℕ → Tx B)
      → ((destination : Option ℕ)
          → Destined action officer item to w destination
          → Ensures (k destination w) Q)
      → Ensures ((destination_of action officer item to >>= k) w) Q
  unfolding destination_of
  Ensures-destination_of CustodyAction.transferred officer item to w k next =
      Ensures-assoc _ _ _ _ (
        Ensures-gets _ _ _ (
          Ensures-assoc _ _ _ _ (
            Ensures-or_raise _ _ _ _ λ target found. Ensures-assoc _ _ _ _ (
              Ensures-raise_if _ _ _ _ λ near. Ensures-assoc _ _ _ _ (
                Ensures-investigation_officer _ _ _ _ λ profile role active. Ensures-assoc _ _ _ _ (
                  Ensures-raise_if _ _ _ _ λ other.
                    Ensures-then _ _ _
                      (next _ (target, found, equal_of _ _ near, role, other, refl))))))))
  Ensures-destination_of CustodyAction.released officer item to w k next =
      Ensures-then _ _ _ (next _ refl)
  Ensures-destination_of CustodyAction.disposed officer item to w k next =
      Ensures-then _ _ _ (next _ refl)
  Ensures-destination_of _ officer item to w k next = Ensures-then _ _ _ (next _ refl)

-- What an answered custody event says of its request.
pub record Handed (user_id evidence_id : ℕ) (request : CustodyRequest) (w : World)
    (event : EvidenceCustodyEvent) (w' : World) : Type 0 where
  pub officer : Officer
  pub docket : Docket
  pub item : EvidenceItem
  pub scoped : InItemScope user_id evidence_id true w officer docket item
  pub was_current : custody_version item.id w ≡ some request.expected_custody_event_id
  pub is_allowed : allows request.event_type item.status ≡ true
  pub destined :
      Destined request.event_type officer item request.to_custodian_officer_id w
        event.to_custodian_officer_id
  pub of_item : event.evidence_item_id ≡ item.id
  pub of_type : event.event_type ≡ event_type_of request.event_type
  pub from_custodian : event.from_custodian_officer_id ≡ item.current_custodian_officer_id
  pub from_place : event.from_location ≡ item.current_storage_location
  pub written :
      w'.cases
      ≡ change_item item.id
          (moved_to event.to_custodian_officer_id request.to_location
            (status_behind request.event_type))
          (add_custody_event event w.cases)

-- A custody event that returns was recorded by the officer to whom the item's docket is assigned,
-- on an item that had not left custody, at the version of custody that the request expected and
-- from a status that allows it; a transfer goes to another investigator of the station. It starts
-- at the item's holder and place, and adds the event and moves the item alone.
pub custody-Handed :
    (user_id evidence_id : ℕ) (request : CustodyRequest) (w : World)
    → Ensures (custody user_id evidence_id request w) (Handed user_id evidence_id request w)
unfolding custody
custody-Handed user_id evidence_id request w = Ensures-transactional _ _ _ (
    Ensures-item_scope _ _ _ _ _ λ officer docket item scoped. Ensures-gets _ _ _ (
      Ensures-raise_if _ _ _ _ λ current. Ensures-raise_if _ _ _ _ λ allowed.
        Ensures-destination_of request.event_type officer item _ _ _ λ destination destined.
          Ensures-utcnow _ _ (
            Ensures-new_id _ _ (
              Ensures-insert_custody_event _ _ _ λ fresh. Ensures-update_item _ _ _ _ (
                Ensures-keeps cases_of _ _ _ (Keeps-audit cases_of (λ _ _. refl) _ _ _ _ _)
                  λ _ w1 same. Ensures-pure _ _ (record {
                    officer = officer;
                    docket = docket;
                    item = item;
                    scoped = scoped;
                    was_current = same_id_of _ _ current;
                    is_allowed = true_of _ allowed;
                    destined = destined;
                    of_item = refl;
                    of_type = refl;
                    from_custodian = refl;
                    from_place = refl;
                    written = same;
                  }))))))
