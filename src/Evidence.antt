-- ===== src/Evidence.antt =====
-- Evidence and its chain of custody (app/modules/evidence/service.py): registration, reading and
-- the custody events. The files are left out; the paged lists are in Listings.
pub mod Custody
pub mod Registration
use saps_case_dockets.Prelude.{
  ℕ, String, Bool, true, false, not, ◌&&◌, ◌||◌, Option, none, some, List, [], ◌∷◌, ◌==◌, same_id,
  is_some, if◌then◌else◌, first_where, leb, ltb,
}
use saps_case_dockets.Text.{Text, codes}
use saps_case_dockets.Schema.{
  World, Docket, Officer, Station, EvidenceItem, EvidenceCustodyEvent, EvidenceStatus,
  CustodyEventType, investigating_officer,
}
use saps_case_dockets.Tx.{
  Tx, http, attribute_error, raise, pure, gets, or_raise, raise_if, utcnow, new_id, transactional,
  ◌>>=◌, ◌>>◌,
}
use saps_case_dockets.Access.{investigation_officer}
use saps_case_dockets.Identifiers.{allocate_evidence_reference}
use saps_case_dockets.Notify.{audit}
use saps_case_dockets.Store.{insert_item, update_item, insert_custody_event}
use saps_case_dockets.Investigations.{scope, unavailable}

-- `EvidenceCustodyEvent.event_type != 'ACCESSED'`
abbrev pub changes_custody : CustodyEventType → Bool
changes_custody CustodyEventType.accessed = false
changes_custody _ = true

-- `y` does not stand behind `x` by `occurred_at`, then `id`
abbrev pub is_later : EvidenceCustodyEvent → EvidenceCustodyEvent → Bool
is_later x y =
    ltb y.occurred_at x.occurred_at || ((y.occurred_at == x.occurred_at) && leb y.id x.id)

-- the last event of the item that changed its custody
unfoldable pub latest_event : ℕ → List EvidenceCustodyEvent → Option EvidenceCustodyEvent
latest_event item_id [] = none
latest_event item_id (x ∷ xs) =
    let counts = x.evidence_item_id == item_id && changes_custody x.event_type in
    elim (latest_event item_id xs) [
      | none ↦ if counts then some x else none
      | some y ↦ if counts && is_later x y then some x else some y
    ]

abbrev pub event_id : Option EvidenceCustodyEvent → Option ℕ
event_id none = none
event_id (some event) = some event.id

-- `EvidenceService.custody_version`
unfoldable pub custody_version : ℕ → World → Option ℕ
unfolding latest_event
custody_version item_id w = event_id (latest_event item_id w.custody_events)

-- `EvidenceOut`: the row with the version of its custody
pub record EvidenceOut : Type 0 where
  pub item : EvidenceItem
  pub version : Option ℕ

-- `EvidenceService.evidence_out`
unfoldable pub evidence_out : EvidenceItem → Tx EvidenceOut
unfolding custody_version
evidence_out item = do
  version ← gets (custody_version item.id)
  pure (record { item = item; version = version })

-- `item.status in ('RELEASED', 'DISPOSED')`
abbrev pub has_left : EvidenceStatus → Bool
has_left EvidenceStatus.released = true
has_left EvidenceStatus.disposed = true
has_left _ = false

-- `EvidenceService.item_scope`
unfoldable pub item_scope : ℕ → ℕ → Bool → Tx ((Officer × Docket) × EvidenceItem)
unfolding scope
item_scope user_id evidence_id writable = do
  row ← gets (λ w. first_where (λ i. i.id == evidence_id) w.evidence_items)
  parent ← or_raise row (http 404 (codes "Evidence not found"))
  scoped ← scope user_id parent.docket_id false writable
  held ← gets (λ w. first_where (λ i. i.id == evidence_id) w.evidence_items)
  item ← or_raise held attribute_error
  raise_if (writable && has_left item.status)
      (http 409 (codes "Evidence is no longer in active custody"))
  pure (scoped, item)

-- `EvidenceRequest`
pub record EvidenceRequest : Type 0 where
  pub title : String
  pub description : String
  pub evidence_type : String
  pub is_digital : Bool
  pub collected_at : Option ℕ
  pub collection_location : Option String
  pub storage_location : String

-- `EvidenceService._register_record`
unfoldable pub register_record : ℕ → Officer → Docket → EvidenceRequest → Tx EvidenceOut
unfolding evidence_out
register_record user_id officer docket request = do
  place ← gets (λ w. first_where (λ s. s.id == officer.station_id) w.stations)
  station ← or_raise place attribute_error
  now ← utcnow
  reference ← allocate_evidence_reference station now
  registered_at ← utcnow
  id ← new_id
  let item : EvidenceItem = record {
    id = id;
    docket_id = docket.id;
    evidence_reference = reference;
    title = request.title;
    description = request.description;
    evidence_type = request.evidence_type;
    is_digital = request.is_digital;
    collected_at = request.collected_at;
    collected_by_officer_id = if is_some request.collected_at then some officer.id else none;
    collection_location = request.collection_location;
    registered_by_user_id = user_id;
    registered_at = registered_at;
    status = EvidenceStatus.in_custody;
    current_custodian_officer_id = some officer.id;
    current_storage_location = some request.storage_location;
  }
  insert_item item
  occurred_at ← utcnow
  custody_id ← new_id
  insert_custody_event (record {
    id = custody_id;
    evidence_item_id = id;
    event_type = CustodyEventType.registered;
    performed_by_user_id = user_id;
    from_custodian_officer_id = none;
    to_custodian_officer_id = some officer.id;
    from_location = none;
    to_location = some request.storage_location;
    event_notes = none;
    occurred_at = occurred_at;
  })
  audit user_id "evidence.register" "evidence_item" (some id) (some officer.station_id)
  evidence_out item

-- `EvidenceService.register`
unfoldable pub register_evidence : ℕ → ℕ → EvidenceRequest → Tx EvidenceOut
unfolding scope register_record
register_evidence user_id docket_id request = transactional unavailable do
  scoped ← scope user_id docket_id false true
  register_record user_id scoped.0 scoped.1 request

-- `EvidenceService.get_item`
unfoldable pub get_item : ℕ → ℕ → Tx EvidenceOut
unfolding item_scope evidence_out
get_item user_id evidence_id = transactional unavailable do
  scoped ← item_scope user_id evidence_id false
  audit user_id "evidence.view" "evidence_item" (some scoped.1.id) (some scoped.0.0.station_id)
  evidence_out scoped.1

-- the events that a request can name
pub data CustodyAction : Type 0 where
  transferred analysis_started analysis_completed released disposed : CustodyAction

-- `CustodyRequest`
pub record CustodyRequest : Type 0 where
  pub expected_custody_event_id : ℕ
  pub event_type : CustodyAction
  pub to_custodian_officer_id : Option ℕ
  pub to_location : String
  pub notes : String

-- held, and not under analysis: `{'IN_CUSTODY', 'TRANSFERRED'}`
abbrev pub is_held : EvidenceStatus → Bool
is_held EvidenceStatus.in_custody = true
is_held EvidenceStatus.transferred = true
is_held _ = false

abbrev pub is_under_analysis : EvidenceStatus → Bool
is_under_analysis EvidenceStatus.under_analysis = true
is_under_analysis _ = false

-- `transitions`: the statuses that allow the event, and the status behind it
abbrev pub allows : CustodyAction → EvidenceStatus → Bool
allows CustodyAction.analysis_completed status = is_under_analysis status
allows _ status = is_held status

abbrev pub status_behind : CustodyAction → EvidenceStatus
status_behind CustodyAction.transferred = EvidenceStatus.transferred
status_behind CustodyAction.analysis_started = EvidenceStatus.under_analysis
status_behind CustodyAction.analysis_completed = EvidenceStatus.in_custody
status_behind CustodyAction.released = EvidenceStatus.released
status_behind CustodyAction.disposed = EvidenceStatus.disposed

abbrev pub event_type_of : CustodyAction → CustodyEventType
event_type_of CustodyAction.transferred = CustodyEventType.transferred
event_type_of CustodyAction.analysis_started = CustodyEventType.analysis_started
event_type_of CustodyAction.analysis_completed = CustodyEventType.analysis_completed
event_type_of CustodyAction.released = CustodyEventType.released
event_type_of CustodyAction.disposed = CustodyEventType.disposed

abbrev custody_action : CustodyAction → String
custody_action CustodyAction.transferred = "evidence.custody.transferred"
custody_action CustodyAction.analysis_started = "evidence.custody.analysis_started"
custody_action CustodyAction.analysis_completed = "evidence.custody.analysis_completed"
custody_action CustodyAction.released = "evidence.custody.released"
custody_action CustodyAction.disposed = "evidence.custody.disposed"

-- the branch on the event: who holds the item behind it
unfoldable pub destination_of : CustodyAction → Officer → EvidenceItem → Option ℕ → Tx (Option ℕ)
destination_of CustodyAction.transferred officer item to_custodian_officer_id = do
  row ← gets (λ w. first_where (λ o. same_id (some o.id) to_custodian_officer_id) w.officers)
  target ← or_raise row (http 422 (codes "Select an active custodian at this station"))
  raise_if (not (target.station_id == officer.station_id))
      (http 422 (codes "Select an active custodian at this station"))
  investigation_officer target.user_id investigating_officer
  raise_if (same_id (some target.id) item.current_custodian_officer_id)
      (http 409 (codes "Evidence is already held by that custodian"))
  pure (some target.id)
destination_of CustodyAction.released officer item to_custodian_officer_id = pure none
destination_of CustodyAction.disposed officer item to_custodian_officer_id = pure none
destination_of _ officer item to_custodian_officer_id = pure item.current_custodian_officer_id

-- the item behind an event
abbrev pub moved_to : Option ℕ → String → EvidenceStatus → EvidenceItem → EvidenceItem
moved_to custodian location status i = record i {
  current_custodian_officer_id = custodian;
  current_storage_location = some location;
  status = status;
}

-- `EvidenceService.custody`
unfoldable pub custody : ℕ → ℕ → CustodyRequest → Tx EvidenceCustodyEvent
unfolding item_scope custody_version destination_of
custody user_id evidence_id request = transactional unavailable do
  scoped ← item_scope user_id evidence_id true
  version ← gets (custody_version scoped.1.id)
  raise_if (not (same_id (some request.expected_custody_event_id) version))
      (http 409 (codes "Evidence custody changed; refresh before retrying"))
  raise_if (not (allows request.event_type scoped.1.status))
      (http 409 (codes "Invalid custody transition"))
  destination ←
      destination_of request.event_type scoped.0.0 scoped.1 request.to_custodian_officer_id
  now ← utcnow
  id ← new_id
  let event : EvidenceCustodyEvent = record {
    id = id;
    evidence_item_id = scoped.1.id;
    event_type = event_type_of request.event_type;
    performed_by_user_id = user_id;
    from_custodian_officer_id = scoped.1.current_custodian_officer_id;
    to_custodian_officer_id = destination;
    from_location = scoped.1.current_storage_location;
    to_location = some request.to_location;
    event_notes = some request.notes;
    occurred_at = now;
  }
  insert_custody_event event
  update_item scoped.1.id
      (moved_to destination request.to_location (status_behind request.event_type))
  audit user_id (custody_action request.event_type) "evidence_item" (some scoped.1.id)
      (some scoped.0.0.station_id)
  pure event
