-- ===== src/Schema/Cases.antt =====
-- The case tables: app/modules/complaints/models.py, refusals/models.py, dockets/models.py,
-- investigations/models.py, evidence/models.py and system/models.py. `created_at` and `updated_at`,
-- which the database fills, are left out.
use saps_case_dockets.Prelude.{ℕ, String, Bool, Option, List}
use saps_case_dockets.Text.{Text}
use saps_case_dockets.Schema.Enums.{
  ComplaintStatus, IntakeChannel, DocketStatus, Verdict, Target, EscalationStatus, ApprovalDecision,
  EvidenceStatus, CustodyEventType, CounterType,
}

pub record Complaint : Type 0 where
  pub id : ℕ
  pub reference_number : Text
  pub complainant_id : ℕ
  pub station_id : ℕ
  pub registered_by_officer_id : Option ℕ
  pub channel : IntakeChannel
  pub status : ComplaintStatus
  pub crime_category : String
  pub incident_description : String
  pub incident_occurred_at : Option ℕ
  pub incident_location : String
  pub submitted_at : ℕ
  pub review_started_at : Option ℕ

pub record ComplaintStatement : Type 0 where
  pub id : ℕ
  pub complaint_id : ℕ
  pub statement_text : String
  pub recorded_by_officer_id : Option ℕ
  pub statement_version : ℕ
  pub is_current : Bool

pub record Witness : Type 0 where
  pub id : ℕ
  pub complaint_id : ℕ
  pub first_name : Text
  pub last_name : Text
  pub phone_number : Option Text
  pub email : Option Text
  pub address : Option Text

pub record WitnessStatement : Type 0 where
  pub id : ℕ
  pub witness_id : ℕ
  pub statement_text : String
  pub recorded_by_officer_id : Option ℕ
  pub statement_version : ℕ
  pub is_current : Bool

-- `complaint_uploads.purpose`
pub data UploadPurpose : Type 0 where
  evidence vehicle_registration : UploadPurpose

-- the columns that say whose file it is; those that describe its content are left out
pub record ComplaintUpload : Type 0 where
  pub id : ℕ
  pub uploaded_by_user_id : ℕ
  pub complaint_id : Option ℕ
  pub purpose : UploadPurpose
  pub uploaded_at : ℕ

pub record RefusalReason : Type 0 where
  pub id : ℕ
  pub name : String
  pub is_non_compliant : Bool
  pub requires_escalation : Bool
  pub requires_officer_notes : Bool
  pub is_active : Bool

pub record ComplaintDecision : Type 0 where
  pub id : ℕ
  pub complaint_id : ℕ
  pub decision : Verdict
  pub decided_by_officer_id : ℕ
  pub refusal_reason_id : Option ℕ
  pub officer_notes : Option Text
  pub decision_sequence : ℕ
  pub decided_at : ℕ

pub record RefusalEscalation : Type 0 where
  pub id : ℕ
  pub complaint_id : ℕ
  pub complaint_decision_id : ℕ
  pub target : Target
  pub status : EscalationStatus
  pub acknowledged_by_user_id : Option ℕ
  pub acknowledged_at : Option ℕ
  pub resolved_by_user_id : Option ℕ
  pub resolved_at : Option ℕ
  pub resolution_notes : Option Text

pub record Docket : Type 0 where
  pub id : ℕ
  pub complaint_id : ℕ
  pub cas_number : Text
  pub status : DocketStatus
  pub created_from_decision_id : ℕ
  pub opened_by_officer_id : ℕ
  pub opened_at : ℕ
  pub closed_at : Option ℕ
  pub closure_reason : Option Text

pub record DocketApproval : Type 0 where
  pub id : ℕ
  pub docket_id : ℕ
  pub decided_by_officer_id : ℕ
  pub decision : ApprovalDecision
  pub notes : Option Text
  pub decision_sequence : ℕ
  pub decided_at : ℕ

pub record CaseAssignment : Type 0 where
  pub id : ℕ
  pub docket_id : ℕ
  pub investigating_officer_id : ℕ
  pub assigned_by_officer_id : ℕ
  pub assigned_at : ℕ
  pub unassigned_at : Option ℕ
  pub assignment_reason : Option Text
  pub unassignment_reason : Option Text

pub record DocketStatusHistory : Type 0 where
  pub id : ℕ
  pub docket_id : ℕ
  pub from_status : Option DocketStatus
  pub to_status : DocketStatus
  pub changed_by_user_id : ℕ
  pub change_reason : Option Text
  pub changed_at : ℕ

pub record InvestigationNote : Type 0 where
  pub id : ℕ
  pub docket_id : ℕ
  pub author_officer_id : ℕ
  pub note_type : String
  pub content : String
  pub is_sensitive : Bool
  pub created_at : ℕ

pub record EvidenceItem : Type 0 where
  pub id : ℕ
  pub docket_id : ℕ
  pub evidence_reference : Text
  pub title : String
  pub description : String
  pub evidence_type : String
  pub is_digital : Bool
  pub collected_at : Option ℕ
  pub collected_by_officer_id : Option ℕ
  pub collection_location : Option String
  pub registered_by_user_id : ℕ
  pub registered_at : ℕ
  pub status : EvidenceStatus
  pub current_custodian_officer_id : Option ℕ
  pub current_storage_location : Option String

pub record EvidenceFile : Type 0 where
  pub id : ℕ
  pub evidence_item_id : ℕ
  pub file_version : ℕ
  pub original_filename : Text
  pub storage_key : Text
  pub media_type : Text
  pub file_size_bytes : ℕ
  pub sha256_hash : Text
  pub uploaded_by_user_id : ℕ
  pub uploaded_at : ℕ

pub record EvidenceCustodyEvent : Type 0 where
  pub id : ℕ
  pub evidence_item_id : ℕ
  pub event_type : CustodyEventType
  pub performed_by_user_id : ℕ
  pub from_custodian_officer_id : Option ℕ
  pub to_custodian_officer_id : Option ℕ
  pub from_location : Option String
  pub to_location : Option String
  pub event_notes : Option String
  pub occurred_at : ℕ

pub record IdentifierCounter : Type 0 where
  pub counter_type : CounterType
  pub station_id : ℕ
  pub calendar_year : ℕ
  pub last_value : ℕ

-- The tables of the cases.
pub record CaseDb : Type 0 where
  pub complaints : List Complaint
  pub statements : List ComplaintStatement
  pub witnesses : List Witness
  pub witness_statements : List WitnessStatement
  pub uploads : List ComplaintUpload
  pub refusal_reasons : List RefusalReason
  pub decisions : List ComplaintDecision
  pub escalations : List RefusalEscalation
  pub dockets : List Docket
  pub approvals : List DocketApproval
  pub assignments : List CaseAssignment
  pub history : List DocketStatusHistory
  pub notes : List InvestigationNote
  pub evidence_items : List EvidenceItem
  pub evidence_files : List EvidenceFile
  pub custody_events : List EvidenceCustodyEvent
