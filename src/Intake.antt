-- ===== src/Intake.antt =====
-- The intake of complaints: `register` of app/modules/complaints/service.py, the files of
-- complaints/uploads.py (`attach`), and the material of complaints/intake.py.
pub mod Statements
use saps_case_dockets.Prelude.{
  ℕ, zero, suc, ◌+◌, String, Bool, true, false, not, ◌&&◌, ◌||◌, Option, none, some, List, [], ◌∷◌,
  ◌++◌, ◌==◌, ltb, is_none, is_some, is_id, if◌then◌else◌, length, first_where, exists_where,
  rows_where, update_where, top_where,
}
use saps_case_dockets.Text.{Text, codes, text_eq}
use saps_case_dockets.Schema.{
  World, Complaint, ComplaintStatus, IntakeChannel, ComplaintStatement, Witness, WitnessStatement,
  ComplaintUpload, UploadPurpose, Officer, Docket, DocketStatus, Station, charge_officer,
  station_commander, investigating_officer, complaint_register, complaint_view_station,
  case_add_note, docket_view_assigned, complaint_registered,
}
use saps_case_dockets.Tx.{
  Tx, http, sql, raise, pure, gets, or_raise, raise_if, put_cases, utcnow, new_id, for_each,
  transactional, ◌>>=◌, ◌>>◌,
}
use saps_case_dockets.Access.{has_role, has_permission, station_officer}
use saps_case_dockets.Identifiers.{allocate_complaint_reference}
use saps_case_dockets.Notify.{audit, notify_complainant}
use saps_case_dockets.Investigations.{scope, is_writable}
use saps_case_dockets.Evidence.{EvidenceRequest, EvidenceOut, register_record}
use saps_case_dockets.Authentication.{days}

pub record WitnessRequest : Type 0 where
  pub first_name : Text
  pub last_name : Text
  pub phone_number : Option Text
  pub email : Option Text
  pub address : Option Text
  pub statement_text : Option String

-- the columns that a registration gives, as far as `Complaint` keeps them
pub record ComplaintRegistration : Type 0 where
  pub station_id : ℕ
  pub crime_category : String
  pub incident_description : String
  pub incident_occurred_at : Option ℕ
  pub incident_location : String
  pub upload_ids : List ℕ
  pub witnesses : List WitnessRequest

-- the keys of `complaint_statements`: the row, the version, and one current statement at most
abbrev pub statement_clashes : ComplaintStatement → ComplaintStatement → Bool
statement_clashes row s =
    s.id == row.id
    || (s.complaint_id == row.complaint_id
        && (s.statement_version == row.statement_version || (row.is_current && s.is_current)))

unfoldable pub insert_statement : ComplaintStatement → Tx (Unit {0})
insert_statement row = do
  taken ← gets (λ w. exists_where (statement_clashes row) w.statements)
  raise_if taken sql
  put_cases (λ w. record w.cases { statements = w.statements ++ row ∷ [] })

abbrev pub witness_statement_clashes : WitnessStatement → WitnessStatement → Bool
witness_statement_clashes row s =
    s.id == row.id
    || (s.witness_id == row.witness_id
        && (s.statement_version == row.statement_version || (row.is_current && s.is_current)))

unfoldable pub insert_witness_statement : WitnessStatement → Tx (Unit {0})
insert_witness_statement row = do
  taken ← gets (λ w. exists_where (witness_statement_clashes row) w.witness_statements)
  raise_if taken sql
  put_cases (λ w. record w.cases { witness_statements = w.witness_statements ++ row ∷ [] })

-- the keys of `complaints`
abbrev pub complaint_clashes : Complaint → Complaint → Bool
complaint_clashes row c = c.id == row.id || text_eq c.reference_number row.reference_number

unfoldable pub insert_complaint : Complaint → Tx (Unit {0})
insert_complaint row = do
  taken ← gets (λ w. exists_where (complaint_clashes row) w.complaints)
  raise_if taken sql
  put_cases (λ w. record w.cases { complaints = w.complaints ++ row ∷ [] })

unfoldable pub witness_statement_of : ℕ → Option ℕ → Option String → Tx (Unit {0})
unfolding insert_witness_statement
witness_statement_of witness_id officer_id none = pure tt
witness_statement_of witness_id officer_id (some text) = do
  id ← new_id
  insert_witness_statement (record {
    id = id;
    witness_id = witness_id;
    statement_text = text;
    recorded_by_officer_id = officer_id;
    statement_version = 1;
    is_current = true;
  })

abbrev pub new_witness : ℕ → ℕ → WitnessRequest → Witness
new_witness id complaint_id request = record {
  id = id;
  complaint_id = complaint_id;
  first_name = request.first_name;
  last_name = request.last_name;
  phone_number = request.phone_number;
  email = request.email;
  address = request.address;
}

-- `ComplaintIntakeService._witness`
unfoldable pub record_witness : ℕ → Option ℕ → WitnessRequest → Tx Witness
unfolding witness_statement_of
record_witness complaint_id officer_id request = do
  id ← new_id
  put_cases
      (λ w. record w.cases { witnesses = w.witnesses ++ new_witness id complaint_id request ∷ [] })
  witness_statement_of id officer_id request.statement_text
  pure (new_witness id complaint_id request)

-- the upload is not the user's own, or used, or older than a day
abbrev pub is_unfit : ℕ → ℕ → ComplaintUpload → Bool
is_unfit actor now r =
    not (r.uploaded_by_user_id == actor)
    || (is_some r.complaint_id || ltb (r.uploaded_at + days 1) now)

abbrev pub is_listed : List ℕ → ComplaintUpload → Bool
is_listed ids r = exists_where (λ i. i == r.id) ids

abbrev pub is_registration : UploadPurpose → Bool
is_registration UploadPurpose.vehicle_registration = true
is_registration UploadPurpose.evidence = false

-- `attach(db, actor, complaint, upload_ids)`; one reading of the clock stands for those of the rows
unfoldable pub attach : ℕ → Complaint → List ℕ → Tx (Unit {0})
attach actor complaint upload_ids = do
  rows ← gets (λ w. rows_where (is_listed upload_ids) w.uploads)
  now ← utcnow
  raise_if (not (length rows == length upload_ids) || exists_where (is_unfit actor now) rows)
      (http 422 (codes "Select your own unused uploads from the last 24 hours"))
  raise_if
      (text_eq (codes complaint.crime_category) (codes "Vehicle theft")
        && not (exists_where (λ r. is_registration r.purpose) rows))
      (http 422 (codes "Vehicle theft requires a vehicle registration document upload"))
  put_cases (λ w. record w.cases {
    uploads =
        update_where (is_listed upload_ids) (λ r. record r { complaint_id = some complaint.id })
          w.uploads;
  })

abbrev pub is_future : Option ℕ → ℕ → Bool
is_future none now = false
is_future (some t) now = ltb now t

abbrev pub online_complaint : ℕ → Text → ℕ → ComplaintRegistration → ℕ → Complaint
online_complaint id reference owner_id request now = record {
  id = id;
  reference_number = reference;
  complainant_id = owner_id;
  station_id = request.station_id;
  registered_by_officer_id = none;
  channel = IntakeChannel.online;
  status = ComplaintStatus.submitted;
  crime_category = request.crime_category;
  incident_description = request.incident_description;
  incident_occurred_at = request.incident_occurred_at;
  incident_location = request.incident_location;
  submitted_at = now;
  review_started_at = none;
}

abbrev pub profile_required : Text
profile_required = codes "Linked complainant profile required"

-- `ComplaintRegistrationService.register`
unfoldable pub register_complaint : ℕ → ComplaintRegistration → Tx Complaint
unfolding insert_complaint insert_statement attach record_witness
register_complaint user_id request = transactional (codes "Complaint registration unavailable") do
  owner ← gets (λ w. first_where (λ c. is_id c.user_id user_id) w.complainants)
  person ← or_raise owner (http 403 profile_required)
  place ← gets (λ w. first_where (λ s. s.id == request.station_id && s.is_active) w.stations)
  station ← or_raise place (http 404 (codes "Active station not found"))
  now ← utcnow
  raise_if (is_future request.incident_occurred_at now)
      (http 422 (codes "Incident date cannot be in the future"))
  reference ← allocate_complaint_reference station now
  id ← new_id
  let row = online_complaint id reference person.id request now
  insert_complaint row
  statement_id ← new_id
  insert_statement (record {
    id = statement_id;
    complaint_id = id;
    statement_text = request.incident_description;
    recorded_by_officer_id = none;
    statement_version = 1;
    is_current = true;
  })
  attach user_id row request.upload_ids
  for_each request.witnesses λ witness. record_witness id none witness >> pure tt
  notify_complainant row complaint_registered none user_id
  audit user_id "complaint.submit" "complaint" (some id) (some station.id)
  pure row

abbrev pub is_open_intake : ComplaintStatus → Bool
is_open_intake ComplaintStatus.submitted = true
is_open_intake ComplaintStatus.under_review = true
is_open_intake ComplaintStatus.accepted = true
is_open_intake ComplaintStatus.docket_created = true
is_open_intake _ = false

abbrev pub is_before_approval : Option Docket → Bool
is_before_approval none = true
is_before_approval (some docket) = elim docket.status [
  | DocketStatus.pending_approval ↦ true
  | _ ↦ false
]

-- what `scope` answers: the complaint, the officer, the docket and `can_append`
pub record Material : Type 0 where
  pub complaint : Complaint
  pub officer : Officer
  pub docket : Option Docket
  pub can_append : Bool

abbrev pub insufficient_permission : Text
insufficient_permission = codes "Insufficient permission"

abbrev pub complaint_missing : Text
complaint_missing = codes "Complaint not found"

-- the branch of the station's officers
unfoldable pub station_material : ℕ → Complaint → Bool → Bool → Bool → Tx Material
station_material actor complaint charge write initial_evidence = do
  permitted ← gets (λ w.
      has_permission w.access actor (if write then complaint_register else complaint_view_station))
  raise_if (not permitted) (http 403 insufficient_permission)
  officer ←
      station_officer actor
        (if write then charge_officer ∷ [] else charge_officer ∷ station_commander ∷ [])
  raise_if (not (complaint.station_id == officer.station_id)) (http 404 complaint_missing)
  docket ← gets (λ w. first_where (λ d. d.complaint_id == complaint.id) w.dockets)
  registers ← gets (λ w. has_permission w.access actor complaint_register)
  let can_append =
      is_open_intake complaint.status && (is_before_approval docket && (registers && charge))
  raise_if (write && not can_append)
      (http 409 (codes "Station intake is closed; the assigned investigator maintains this docket"))
  raise_if (initial_evidence && is_none docket)
      (http 409 (codes "Accept the complaint before registering initial evidence"))
  pure (record {
    complaint = complaint;
    officer = officer;
    docket = docket;
    can_append = can_append;
  })

-- the branch of the investigator
unfoldable pub investigator_material : ℕ → Complaint → Bool → Tx Material
investigator_material actor complaint write = do
  permitted ←
      gets
        (λ w. has_permission w.access actor (if write then case_add_note else docket_view_assigned))
  raise_if (not permitted) (http 403 insufficient_permission)
  found ← gets (λ w. first_where (λ d. d.complaint_id == complaint.id) w.dockets)
  docket ← or_raise found (http 404 complaint_missing)
  scoped ← scope actor docket.id false write
  notes ← gets (λ w. has_permission w.access actor case_add_note)
  pure (record {
    complaint = complaint;
    officer = scoped.0;
    docket = some scoped.1;
    can_append = is_writable scoped.1.status && notes;
  })

-- `ComplaintIntakeService.scope`
unfoldable pub material_scope : ℕ → ℕ → Bool → Bool → Tx Material
unfolding station_material investigator_material
material_scope actor complaint_id write initial_evidence = do
  found ← gets (λ w. first_where (λ c. c.id == complaint_id) w.complaints)
  complaint ← or_raise found (http 404 complaint_missing)
  charge ← gets (λ w. has_role w.access actor charge_officer)
  commands ← gets (λ w. has_role w.access actor station_commander)
  investigates ← gets (λ w. has_role w.access actor investigating_officer)
  if charge || (commands && not write)
      then station_material actor complaint charge write initial_evidence
      else (if investigates && not initial_evidence
          then investigator_material actor complaint write
          else raise (http 403 (codes "Authorised case officer required")))

abbrev pub intake_unavailable : Text
intake_unavailable = codes "Complaint intake service unavailable"

-- `ComplaintIntakeService.add_witness`
unfoldable pub add_witness : ℕ → ℕ → WitnessRequest → Tx Witness
unfolding material_scope record_witness
add_witness actor complaint_id request = transactional intake_unavailable do
  material ← material_scope actor complaint_id true false
  row ← record_witness material.complaint.id (some material.officer.id) request
  audit actor "complaint.witness.record" "complaint" (some material.complaint.id)
      (some material.complaint.station_id)
  pure row

pub record StatementRequest : Type 0 where
  pub statement_text : String
  pub expected_version : ℕ

abbrev pub version_changed : Text
version_changed = codes "Statement version changed; reload before appending a correction"

abbrev pub version_of : Option ComplaintStatement → ℕ
version_of none = 0
version_of (some s) = s.statement_version

abbrev pub is_statement : Option ComplaintStatement → ComplaintStatement → Bool
is_statement none s = false
is_statement (some previous) s = s.id == previous.id

-- the statements with the previous one no longer current
abbrev pub superseded :
    Option ComplaintStatement → List ComplaintStatement → List ComplaintStatement
superseded previous rows =
    update_where (is_statement previous) (λ s. record s { is_current = false }) rows

abbrev pub next_statement : ℕ → ℕ → StatementRequest → ℕ → ℕ → ComplaintStatement
next_statement id complaint_id request officer_id version = record {
  id = id;
  complaint_id = complaint_id;
  statement_text = request.statement_text;
  recorded_by_officer_id = some officer_id;
  statement_version = version + 1;
  is_current = true;
}

-- `ComplaintIntakeService.append_statement` without a witness
unfoldable pub append_statement : ℕ → ℕ → StatementRequest → Tx ComplaintStatement
unfolding material_scope insert_statement
append_statement actor complaint_id request = transactional intake_unavailable do
  material ← material_scope actor complaint_id true false
  previous ← gets (λ w.
      top_where (λ s. s.complaint_id == material.complaint.id) (λ s. s.statement_version)
        w.statements)
  raise_if (not (request.expected_version == version_of previous)) (http 409 version_changed)
  put_cases (λ w. record w.cases { statements = superseded previous w.statements })
  id ← new_id
  insert_statement
      (next_statement id material.complaint.id request material.officer.id (version_of previous))
  audit actor "complaint.statement.append" "complaint" (some material.complaint.id)
      (some material.complaint.station_id)
  pure (next_statement id material.complaint.id request material.officer.id (version_of previous))

abbrev pub witness_version_of : Option WitnessStatement → ℕ
witness_version_of none = 0
witness_version_of (some s) = s.statement_version

abbrev pub is_witness_statement : Option WitnessStatement → WitnessStatement → Bool
is_witness_statement none s = false
is_witness_statement (some previous) s = s.id == previous.id

abbrev pub next_witness_statement : ℕ → ℕ → StatementRequest → ℕ → ℕ → WitnessStatement
next_witness_statement id witness_id request officer_id version = record {
  id = id;
  witness_id = witness_id;
  statement_text = request.statement_text;
  recorded_by_officer_id = some officer_id;
  statement_version = version + 1;
  is_current = true;
}

-- the same with a witness of the complaint
unfoldable pub append_witness_statement : ℕ → ℕ → StatementRequest → ℕ → Tx WitnessStatement
unfolding material_scope insert_witness_statement
append_witness_statement actor complaint_id request witness_id = transactional intake_unavailable do
  material ← material_scope actor complaint_id true false
  found ← gets (λ w.
      first_where (λ x. x.id == witness_id && x.complaint_id == material.complaint.id) w.witnesses)
  witness ← or_raise found (http 404 (codes "Witness not found"))
  previous ← gets (λ w.
      top_where (λ s. s.witness_id == witness_id) (λ s. s.statement_version) w.witness_statements)
  raise_if (not (request.expected_version == witness_version_of previous))
      (http 409 version_changed)
  put_cases (λ w. record w.cases {
    witness_statements =
        update_where (is_witness_statement previous) (λ s. record s { is_current = false })
          w.witness_statements;
  })
  id ← new_id
  insert_witness_statement (
      next_witness_statement id witness_id request material.officer.id
        (witness_version_of previous))
  audit actor "witness.statement.append" "complaint" (some material.complaint.id)
      (some material.complaint.station_id)
  pure (
      next_witness_statement id witness_id request material.officer.id
        (witness_version_of previous))

-- `ComplaintIntakeService.initial_evidence`
unfoldable pub initial_evidence : ℕ → ℕ → EvidenceRequest → Tx EvidenceOut
unfolding material_scope register_record
initial_evidence actor complaint_id request = transactional intake_unavailable do
  material ← material_scope actor complaint_id true true
  docket ←
      or_raise material.docket
        (http 409 (codes "Accept the complaint before registering initial evidence"))
  register_record actor material.officer docket request

-- `ComplaintTrackingService.track` of one complaint, by its identifier
unfoldable pub track_complaint : ℕ → ℕ → Tx (Complaint × Option Text)
track_complaint user_id complaint_id = transactional (codes "Complaint tracking unavailable") do
  owner ← gets (λ w. first_where (λ c. is_id c.user_id user_id) w.complainants)
  person ← or_raise owner (http 403 profile_required)
  found ←
      gets
        (λ w. first_where (λ c. c.complainant_id == person.id && c.id == complaint_id) w.complaints)
  row ← or_raise found (http 404 complaint_missing)
  docket ← gets (λ w. first_where (λ d. d.complaint_id == row.id) w.dockets)
  audit user_id "complaint.track_own" "complaint" (some row.id) (some row.station_id)
  pure (row, elim docket [ none ↦ none | some d ↦ some d.cas_number ])
