-- ===== src/Tests/Witnesses.antt =====
-- Each theorem applied on the station of the tests, at calls that return there.
use saps_case_dockets.Prelude.{
  ◌≡◌, ◌≢◌, ◌≤◌, refl, true, false, first_where, update_where, none, some, arith,
}
use saps_case_dockets.Text.{Text, codes}
use saps_case_dockets.Schema.{World, cas_counter, complaint_refused}
use saps_case_dockets.Tx.{ok, ◌>>=◌}
use saps_case_dockets.Tx.Rules.{Ensures, is_error}
use saps_case_dockets.Identifiers.{
  allocate_identifier, format_identifier, is_station_code, is_alnum, code_rest, bump, is_counter,
}
use saps_case_dockets.Identifiers.Counters.{
  value, Allocated, allocate_identifier-Allocated, allocate_identifier-distinct,
}
use saps_case_dockets.Notify.{enqueue}
use saps_case_dockets.Notify.Outbox.{enqueue-once}
use saps_case_dockets.Dockets.{open_docket, get_for_commander, approve}
use saps_case_dockets.Dockets.Review.{Reviewed, approve-Reviewed}
use saps_case_dockets.Dockets.Opening.{Answered, open_docket-Answered}
use saps_case_dockets.Refusals.{decide, acknowledge, resolve}
use saps_case_dockets.Refusals.Decision.{Decided, decide-Decided}
use saps_case_dockets.Refusals.Final.{decide-final}
use saps_case_dockets.Refusals.Escalations.{Marked, escalation-Marked}
use saps_case_dockets.Investigations.{assign, unassign, get_docket, add_note, update_status}
use saps_case_dockets.Investigations.Assignments.{
  Assigned, assign-Assigned, Unassigned, unassign-Unassigned,
}
use saps_case_dockets.Investigations.Progress.{
  Progressed, update_status-Progressed, Noted, add_note-Noted,
}
use saps_case_dockets.Evidence.{register_evidence, custody}
use saps_case_dockets.Evidence.Custody.{Handed, custody-Handed}
use saps_case_dockets.Evidence.Registration.{Registered, register_evidence-Registered}
use saps_case_dockets.Complaints.{start_review}
use saps_case_dockets.Complaints.Review.{Started, start_review-Started}
use saps_case_dockets.Oversight.{act_on_review}
use saps_case_dockets.Oversight.Action
use saps_case_dockets.Oversight.Action.{act_on_review-Reviewed}
use saps_case_dockets.Listings.Reads.{reads-Keeps}
use saps_case_dockets.Listings.{
  list_assignments, list_mine, list_status_history, list_notes, list_items, list_custody,
  list_for_commander,
}
use saps_case_dockets.Evidence.{get_item}
use saps_case_dockets.Tx.Rules.{Keeps, cases_of}
use saps_case_dockets.Investigations.Closing.{closed-final}
use saps_case_dockets.Listings.Answers.{DocketPage, CustodyPage, lists-IsPage}
use saps_case_dockets.Tests.Station.{start, station, complaint}
use saps_case_dockets.Tests.{
  closing, exhibit, transfer, forward, registered, acceptance, refusal, approval, assignment, hold,
  note, decided, refused, approved, assigned,
}

decide-Decided_example : Ensures (decide 1 21 refusal start) (Decided 1 21 refusal start)
decide-Decided_example = decide-Decided 1 21 refusal start

decide-final_example :
    Ensures (decide 1 21 acceptance start) (λ out w'. is_error (decide 1 21 refusal w').0 ≡ true)
decide-final_example = decide-final 1 21 acceptance 1 refusal start

approve-Reviewed_example :
    Ensures (approve 2 101 approval decided) (Reviewed 2 101 approval decided)
approve-Reviewed_example = approve-Reviewed 2 101 approval decided

open_docket-Answered_example : Ensures (open_docket 1 21 decided) (Answered 1 21 decided)
open_docket-Answered_example = open_docket-Answered 1 21 decided

assign-Assigned_example :
    Ensures (assign 2 101 assignment approved) (Assigned 2 101 assignment approved)
assign-Assigned_example = assign-Assigned 2 101 assignment approved

unassign-Unassigned_example :
    Ensures (unassign 2 101 (codes "Leave") assigned) (Unassigned 2 101 (codes "Leave") assigned)
unassign-Unassigned_example = unassign-Unassigned 2 101 (codes "Leave") assigned

update_status-Progressed_example :
    Ensures (update_status 3 101 hold assigned) (Progressed 3 101 hold assigned)
update_status-Progressed_example = update_status-Progressed 3 101 hold assigned

add_note-Noted_example : Ensures (add_note 3 101 note assigned) (Noted 3 101 note assigned)
add_note-Noted_example = add_note-Noted 3 101 note assigned

escalation-Marked_example :
    Ensures (acknowledge 2 101 refused) (Marked 2 101 none refused)
    × Ensures
        (resolve 2 101 (codes "Reviewed") refused)
        (Marked 2 101 (some (codes "Reviewed")) refused)
escalation-Marked_example = escalation-Marked 2 101 (codes "Reviewed") refused

enqueue-once_example :
    Ensures
      (enqueue complaint none complaint_refused 100 start)
      (λ id w'. enqueue complaint (some 101) complaint_refused 100 w' ≡ (ok id, w'))
enqueue-once_example = enqueue-once complaint none complaint_refused 100 complaint (some 101) start

allocate_identifier-Allocated_example :
    Ensures
      (allocate_identifier station 7 cas_counter (codes "CAS") start)
      (Allocated station 7 cas_counter (codes "CAS") start)
allocate_identifier-Allocated_example =
    allocate_identifier-Allocated station 7 cas_counter (codes "CAS") start

-- the state and the text of the first allocation
abbrev allocated : World
allocated = (allocate_identifier station 7 cas_counter (codes "CAS") start).1

abbrev first_text : Text
first_text = format_identifier (codes "CAS") station.station_code 2026 1

first_allocation : Allocated station 7 cas_counter (codes "CAS") start first_text allocated
unfolding allocate_identifier ◌>>=◌ is_station_code code_rest is_alnum codes bump is_counter
    first_where update_where
first_allocation = (allocate_identifier-Allocated station 7 cas_counter (codes "CAS") start).holds

counted : value cas_counter 1 2026 allocated.counters ≤ value cas_counter 1 2026 allocated.counters
counted = omega arith

allocate_identifier-distinct_example :
    Ensures
      (allocate_identifier station 9 cas_counter (codes "CAS") allocated)
      (λ other w3. first_text ≢ other)
unfolding allocate_identifier ◌>>=◌ codes
allocate_identifier-distinct_example =
    allocate_identifier-distinct station 7 9 cas_counter (codes "CAS") start allocated first_text
      allocated first_allocation refl counted

register_evidence-Registered_example :
    Ensures (register_evidence 3 101 exhibit assigned) (Registered 3 101 exhibit assigned)
register_evidence-Registered_example = register_evidence-Registered 3 101 exhibit assigned

custody-Handed_example :
    Ensures (custody 3 126 transfer registered) (Handed 3 126 transfer registered)
custody-Handed_example = custody-Handed 3 126 transfer registered

start_review-Started_example : Ensures (start_review 1 21 start) (Started 1 21 start)
start_review-Started_example = start_review-Started 1 21 start

act_on_review-Reviewed_example :
    Ensures (act_on_review 2 21 forward refused) (λ _ w'. Action.Reviewed 2 21 forward refused w')
act_on_review-Reviewed_example = act_on_review-Reviewed 2 21 forward refused

reads-Keeps_example :
    Keeps cases_of (get_for_commander 2 101)
    × Keeps cases_of (get_docket 2 101)
    × Keeps cases_of (get_item 2 101)
    × Keeps cases_of (list_for_commander 2 none 50 0)
    × Keeps cases_of (list_assignments 2 101 50 0)
    × Keeps cases_of (list_mine 2 50 0)
    × Keeps cases_of (list_status_history 2 101 50 0)
    × Keeps cases_of (list_notes 2 101 50 0)
    × Keeps cases_of (list_items 2 101 50 0)
    × Keeps cases_of (list_custody 2 101 50 0)
reads-Keeps_example = reads-Keeps 2 101 50 0 none

closed-final_example : Ensures (update_status 3 101 closing assigned) (λ _ w'.
    (is_error (assign 2 101 assignment w').0 ≡ true)
    × (is_error (unassign 2 101 (codes "Leave") w').0 ≡ true)
    × (is_error (add_note 2 101 note w').0 ≡ true)
    × (is_error (update_status 2 101 hold w').0 ≡ true))
closed-final_example =
    closed-final 3 101 closing 2 assignment (codes "Leave") note hold assigned refl

-- the two columns of a row of numbers
lists-IsPage_example :
    Ensures (list_assignments 3 101 5 0 assigned) (λ out _.
      DocketPage true
        (λ a. (a.assigned_at, a.id))
        (λ a. a.docket_id)
        3
        101
        5
        0
        assigned
        assigned.assignments
        out)
    × Ensures (list_status_history 3 101 5 0 assigned) (λ out _.
      DocketPage false
        (λ h. (h.changed_at, h.id))
        (λ h. h.docket_id)
        3
        101
        5
        0
        assigned
        assigned.history
        out)
    × Ensures (list_notes 3 101 5 0 assigned) (λ out _.
      DocketPage false
        (λ n. (n.created_at, n.id))
        (λ n. n.docket_id)
        3
        101
        5
        0
        assigned
        assigned.notes
        out)
    × Ensures (list_custody 3 101 5 0 assigned) (λ out _. CustodyPage 3 101 5 0 assigned out)
lists-IsPage_example = lists-IsPage 3 101 5 0 assigned
