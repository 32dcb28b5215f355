-- ===== src/Evidence/Registration.antt =====
-- The registration of an item of evidence.
use saps_case_dockets.Prelude.{ℕ, ◌≡◌, refl, ap, ◌∙◌, true, false, none, some, exists_where}
use saps_case_dockets.Schema.{
  World, CaseDb, Docket, Officer, EvidenceItem, EvidenceCustodyEvent, EvidenceStatus,
  CustodyEventType,
}
use saps_case_dockets.Tx.Rules.{
  Ensures, cases_of, Ensures-transactional, Ensures-gets, Ensures-or_raise, Ensures-pure,
  Ensures-utcnow, Ensures-new_id, Ensures-keeps, Ensures-weaken,
}
use saps_case_dockets.Identifiers.Quiet.{Keeps-allocate_evidence_reference}
use saps_case_dockets.Notify.Quiet.{Keeps-audit}
use saps_case_dockets.Store.{item_clashes}
use saps_case_dockets.Store.Effects.{Ensures-insert_item, Ensures-insert_custody_event}
use saps_case_dockets.Store.Writes.{add_item, add_custody_event}
use saps_case_dockets.Investigations.Scope.{InScope, Ensures-scope}
use saps_case_dockets.Evidence.{
  custody_version, EvidenceOut, evidence_out, EvidenceRequest, register_record, register_evidence,
}

-- the first event of an item: into the hands of the officer who registers it
abbrev pub first_event : ℕ → ℕ → EvidenceItem → ℕ → EvidenceCustodyEvent
first_event id user_id item occurred_at = record {
  id = id;
  evidence_item_id = item.id;
  event_type = CustodyEventType.registered;
  performed_by_user_id = user_id;
  from_custodian_officer_id = none;
  to_custodian_officer_id = item.current_custodian_officer_id;
  from_location = none;
  to_location = item.current_storage_location;
  event_notes = none;
  occurred_at = occurred_at;
}

-- the tables with a new item and its first event
abbrev pub with_item : ℕ → ℕ → EvidenceItem → ℕ → CaseDb → CaseDb
with_item id user_id item occurred_at c =
    add_custody_event (first_event id user_id item occurred_at) (add_item item c)

-- What a registration that returned has done.
pub record Recorded (user_id : ℕ) (officer : Officer) (docket : Docket) (request : EvidenceRequest)
    (w : World) (out : EvidenceOut) (w' : World) : Type 0 where
  pub event_id : ℕ
  pub occurred_at : ℕ
  pub of_docket : out.item.docket_id ≡ docket.id
  pub has_title : out.item.title ≡ request.title
  pub in_custody : out.item.status ≡ EvidenceStatus.in_custody
  pub held_by : out.item.current_custodian_officer_id ≡ some officer.id
  pub held_at : out.item.current_storage_location ≡ some request.storage_location
  pub is_unique : exists_where (item_clashes out.item) w.evidence_items ≡ false
  pub current : out.version ≡ custody_version out.item.id w'
  pub written : w'.cases ≡ with_item event_id user_id out.item occurred_at w.cases

Ensures-register_record :
    (user_id : ℕ) (officer : Officer) (docket : Docket) (request : EvidenceRequest) (w : World)
    → Ensures
        (register_record user_id officer docket request w)
        (Recorded user_id officer docket request w)
unfolding register_record evidence_out
Ensures-register_record user_id officer docket request w = Ensures-gets _ _ _ (
    Ensures-or_raise _ _ _ _ λ station found. Ensures-utcnow _ _ (
      Ensures-keeps cases_of _ _ _ (Keeps-allocate_evidence_reference _ _) λ reference w1 s1.
        Ensures-utcnow _ _ (
          Ensures-new_id _ _ (
            Ensures-insert_item _ _ _ λ free. Ensures-utcnow _ _ (
              Ensures-new_id _ _ (
                Ensures-insert_custody_event _ _ _ λ fresh.
                  Ensures-keeps cases_of _ _ _ (Keeps-audit cases_of (λ _ _. refl) _ _ _ _ _)
                    λ _ w2 s2. Ensures-gets _ _ _ (
                      Ensures-pure _ _ (record {
                        event_id = _;
                        occurred_at = _;
                        of_docket = refl;
                        has_title = refl;
                        in_custody = refl;
                        held_by = refl;
                        held_at = refl;
                        is_unique = rw s1 at free;
                        current = refl;
                        written = s2 ∙ ap (with_item _ _ _ _) s1;
                      }))))))))

-- What an answered registration says of its request.
pub record Registered (user_id docket_id : ℕ) (request : EvidenceRequest) (w : World)
    (out : EvidenceOut) (w' : World) : Type 0 where
  pub officer : Officer
  pub docket : Docket
  pub scoped : InScope user_id docket_id false true w officer docket
  pub recorded : Recorded user_id officer docket request w out w'

-- A registration that returns was made by the officer to whom the docket is assigned, while the
-- docket was open for investigation; it adds the item under a reference that no item has, in that
-- officer's custody, with its first custody event, and nothing else.
pub register_evidence-Registered :
    (user_id docket_id : ℕ) (request : EvidenceRequest) (w : World)
    → Ensures
        (register_evidence user_id docket_id request w)
        (Registered user_id docket_id request w)
unfolding register_evidence
register_evidence-Registered user_id docket_id request w = Ensures-transactional _ _ _ (
    Ensures-scope _ _ _ _ _ _ λ officer docket scoped.
      Ensures-weaken _ _ (Ensures-register_record user_id officer docket request _)
        λ out w' recorded. record {
          officer = officer;
          docket = docket;
          scoped = scoped;
          recorded = recorded;
        })
