-- ===== src/Investigations/Progress.antt =====
-- The progress of an investigation: changes of status and notes.
use saps_case_dockets.Prelude.{
  true_of, ℕ, ◌≡◌, refl, ◌∙◌, Bool, true, false, not, ◌&&◌, ◌||◌, some, first_where, arith,
}
use saps_case_dockets.Schema.{
  World, Docket, DocketStatusHistory, Officer, InvestigationNote, same_docket_status,
}
use saps_case_dockets.Schema.{case_close}
use saps_case_dockets.Tx.Rules.{
  Ensures, cases_of, Ensures-transactional, Ensures-gets, Ensures-raise_if, Ensures-or_raise,
  Ensures-pure, Ensures-last, Ensures-bind, Ensures-utcnow, Ensures-new_id, Ensures-keeps,
}
use saps_case_dockets.Access.{has_permission}
use saps_case_dockets.Notify.Quiet.{Keeps-audit, Keeps-enqueue, Keeps-notify_complainant}
use saps_case_dockets.Store.{is_docket}
use saps_case_dockets.Store.Effects.{Ensures-insert_note}
use saps_case_dockets.Store.Writes
use saps_case_dockets.Store.Writes.{
  change_docket, add_history, add_assignment, change_assignment, with_cases,
}
use saps_case_dockets.Investigations.{
  StatusRequest, status_transitions, is_closed, update_status, add_note, NoteRequest,
}
use saps_case_dockets.Investigations.Scope.{InScope, Ensures-scope}
use saps_case_dockets.Investigations.Moves.{Moved, Ensures-transition}

-- What an answered change of status says of its request.
pub record Progressed (user_id docket_id : ℕ) (request : StatusRequest) (w : World) (out : Docket)
    (w' : World) : Type 0 where
  pub officer : Officer
  pub docket : Docket
  pub entry : DocketStatusHistory
  pub scoped : InScope user_id docket_id false true w officer docket
  pub as_expected : same_docket_status docket.status request.expected_status ≡ true
  pub may_close :
      (not (is_closed request.status) || has_permission w.access user_id case_close) ≡ true
  pub is_allowed : status_transitions docket.status request.status ≡ true
  pub moved : Moved docket user_id request.status request.reason w.cases entry w'.cases
  pub answered : first_where (is_docket docket.id) w'.dockets ≡ some out

implied_of : (a b : Bool) → (a && not b) ≡ false → (not a || b) ≡ true
implied_of a b h = ground arith

-- A change of status that returns was made by the officer to whom the docket is assigned, from the
-- status that the request expected to one that the transitions allow, with the permission to close
-- if it closes; it writes one entry and the docket's status alone, and answers the docket as it
-- then is.
pub update_status-Progressed :
    (user_id docket_id : ℕ) (request : StatusRequest) (w : World)
    → Ensures (update_status user_id docket_id request w) (Progressed user_id docket_id request w)
unfolding update_status
update_status-Progressed user_id docket_id request w = Ensures-transactional _ _ _ (
    Ensures-scope _ _ _ _ _ _ λ officer docket scoped. Ensures-raise_if _ _ _ _ λ expected.
      Ensures-gets _ _ _ (
        Ensures-raise_if _ _ _ _ λ close. Ensures-raise_if _ _ _ _ λ allowed.
          Ensures-bind _ _ _ _ (Ensures-transition docket _ _ _ _) λ entry w1 moved.
            Ensures-gets _ _ _ (
              Ensures-or_raise _ _ _ _ λ complaint _.
                Ensures-keeps cases_of _ _ _ (Keeps-enqueue cases_of (λ _ _. refl) _ _ _ _)
                  λ _ w2 s2.
                    Ensures-keeps cases_of _ _ _ (Keeps-audit cases_of (λ _ _. refl) _ _ _ _ _)
                      λ _ w3 s3.
                        Ensures-keeps cases_of _ _ _
                          (Keeps-notify_complainant cases_of (λ _ _. refl) _ _ _ _)
                          λ _ w4 s4. Ensures-gets _ _ _ (
                            Ensures-last _ _ (
                              Ensures-or_raise _ _ _ _ λ changed is_row. Ensures-pure _ _ (record {
                                officer = officer;
                                docket = docket;
                                entry = entry;
                                scoped = scoped;
                                as_expected = true_of _ expected;
                                may_close = implied_of _ _ close;
                                is_allowed = true_of _ allowed;
                                moved = rw (← (s4 ∙ s3 ∙ s2)) at moved;
                                answered = is_row;
                              }))))))

-- What an answered note says of its request.
pub record Noted (user_id docket_id : ℕ) (request : NoteRequest) (w : World)
    (note : InvestigationNote) (w' : World) : Type 0 where
  pub officer : Officer
  pub docket : Docket
  pub scoped : InScope user_id docket_id false true w officer docket
  pub on_docket : note.docket_id ≡ docket.id
  pub by_author : note.author_officer_id ≡ officer.id
  pub has_content : note.content ≡ request.content
  pub has_sensitivity : note.is_sensitive ≡ request.is_sensitive
  pub written : w'.cases ≡ Writes.add_note note w.cases

-- A note that returns was made by the officer to whom the docket is assigned, while the docket was
-- open for investigation, with the content of the request, and adds that note alone.
pub add_note-Noted :
    (user_id docket_id : ℕ) (request : NoteRequest) (w : World)
    → Ensures (add_note user_id docket_id request w) (Noted user_id docket_id request w)
unfolding add_note
add_note-Noted user_id docket_id request w = Ensures-transactional _ _ _ (
    Ensures-scope _ _ _ _ _ _ λ officer docket scoped. Ensures-utcnow _ _ (
      Ensures-new_id _ _ (
        Ensures-insert_note _ _ _ λ fresh.
          Ensures-keeps cases_of _ _ _ (Keeps-audit cases_of (λ _ _. refl) _ _ _ _ _) λ _ w1 same.
            Ensures-pure _ _ (record {
              officer = officer;
              docket = docket;
              scoped = scoped;
              on_docket = refl;
              by_author = refl;
              has_content = refl;
              has_sensitivity = refl;
              written = same;
            }))))
