-- ===== src/Notify/Outbox.antt =====
-- The intents of the email outbox.
use saps_case_dockets.Prelude.{
  ℕ, ◌≡◌, refl, ap, ◌∙◌, String, true, Option, none, some, List, [], ◌∷◌, ◌++◌, first_where, arith,
}
use saps_case_dockets.Text.{Text}
use saps_case_dockets.Schema.{
  World, Db, Complaint, Docket, CaseEvent, EmailReason, CaseEmailIntent, same_event, queued,
  complaint_registered, complaint_accepted,
}
use saps_case_dockets.Tx.{ok, ◌>>=◌}
use saps_case_dockets.Tx.Rules.{
  Ensures, Keeps, keeps_rules, Ensures-gets, Ensures-pure, Ensures-keeps, Ensures-put_comms,
  Ensures-new_id, Ensures-weaken,
}
use saps_case_dockets.Notify.{
  system_audit, event_body, enqueue_new, enqueue_unless, enqueue, failed_at_for, has_key,
}
use saps_case_dockets.Tx.{put_comms}
use saps_case_dockets.Tx.Rules.{Keeps-bind, Keeps-new_id}

-- the intents of the outbox
abbrev pub intents_of : Db → List CaseEmailIntent
intents_of db = db.comms.email_intents

-- the intent of an event of a source, if there is one
abbrev pub intent : CaseEvent → ℕ → World → Option CaseEmailIntent
intent event source_id w = first_where (has_key event source_id) w.email_intents

Keeps-system_audit :
    (action entity : String) (id station : Option ℕ) (r : EmailReason)
    → Keeps intents_of (system_audit action entity id station r)
unfolding system_audit put_comms
Keeps-system_audit action entity id station r =
    Keeps-bind _ _ _ (Keeps-new_id _) λ new. record { at = λ w. refl }

Keeps-event_body :
    (c : Complaint) (d : Option Docket) (e : CaseEvent) (id : ℕ)
    → Keeps intents_of (event_body c d e id)
unfolding event_body
Keeps-event_body c d complaint_registered id = search keeps_rules
Keeps-event_body c d complaint_accepted id = search keeps_rules
Keeps-event_body c d _ id = search keeps_rules

Keeps-failed_at_for : (r : EmailReason) → Keeps intents_of (failed_at_for r)
Keeps-failed_at_for queued = search keeps_rules
Keeps-failed_at_for _ = search keeps_rules

-- the intents with one more behind the others
abbrev with_intent :
    ℕ → CaseEvent → ℕ → Option Text → EmailReason → List CaseEmailIntent → List CaseEmailIntent
with_intent id event source_id digest reason rows =
    rows
    ++ record {
      notification_id = id;
      event_key = (event, source_id);
      email_digest = digest;
      reason = reason;
    }
      ∷ []

record Queued (event : CaseEvent) (source_id : ℕ) (w : World) (id : ℕ) (w' : World) : Type 0 where
  digest : Option Text
  reason : EmailReason
  written : w'.email_intents ≡ with_intent id event source_id digest reason w.email_intents

Ensures-enqueue_new :
    (complaint : Complaint) (docket_id : Option ℕ) (event : CaseEvent) (source_id : ℕ) (w : World)
    → Ensures (enqueue_new complaint docket_id event source_id w) (Queued event source_id w)
unfolding enqueue_new
Ensures-enqueue_new complaint docket_id event source_id w = Ensures-gets _ _ _ (
    Ensures-keeps intents_of _ _ _ (Keeps-event_body complaint _ _ _) λ body w1 s1.
      Ensures-gets _ _ _ (
        Ensures-gets _ _ _ (
          Ensures-new_id _ _ (
            Ensures-keeps intents_of _ _ _ (Keeps-failed_at_for _) λ failed w2 s2.
              Ensures-gets _ _ _ (
                Ensures-put_comms _ _ _ (
                  Ensures-keeps intents_of _ _ _ (Keeps-system_audit _ _ _ _ _) λ _ w3 s3.
                    Ensures-pure _ _ (record {
                      digest = _;
                      reason = _;
                      written = s3 ∙ ap (with_intent _ _ _ _ _) (s2 ∙ s1);
                    })))))))

same_event_refl : (event : CaseEvent) → same_event event event ≡ true
same_event_refl event = ground arith

finds_queued :
    (id : ℕ) (event : CaseEvent) (source_id : ℕ) (digest : Option Text) (reason : EmailReason)
    (rows : List CaseEmailIntent)
    → first_where (has_key event source_id) rows ≡ none
    → first_where (has_key event source_id) (with_intent id event source_id digest reason rows)
      ≡ some (record {
        notification_id = id;
        event_key = (event, source_id);
        email_digest = digest;
        reason = reason;
      })
unfolding first_where
finds_queued id event source_id digest reason [] free = ground (arith, same_event_refl event)
finds_queued id event source_id digest reason (row ∷ rows) free =
    ground (arith, finds_queued id event source_id digest reason rows)

enqueue-found :
    (complaint : Complaint) (docket_id : Option ℕ) (event : CaseEvent) (source_id : ℕ) (w : World)
    {row : CaseEmailIntent}
    → intent event source_id w ≡ some row
    → enqueue complaint docket_id event source_id w ≡ (ok row.notification_id, w)
unfolding enqueue enqueue_unless ◌>>=◌
enqueue-found complaint docket_id event source_id w h =
    ap (λ found. enqueue_unless found complaint docket_id event source_id w) h

Ensures-enqueue_unless :
    (complaint : Complaint) (docket_id : Option ℕ) (event : CaseEvent) (source_id : ℕ) (w : World)
    (existing : Option CaseEmailIntent)
    → intent event source_id w ≡ existing
    → (again : Complaint) (other : Option ℕ)
    → Ensures
        (enqueue_unless existing complaint docket_id event source_id w)
        (λ id w'. enqueue again other event source_id w' ≡ (ok id, w'))
unfolding enqueue_unless
Ensures-enqueue_unless complaint docket_id event source_id w (some row) h again other =
    Ensures-pure _ _ (enqueue-found _ _ _ _ _ h)
Ensures-enqueue_unless complaint docket_id event source_id w none h again other =
    Ensures-weaken _ _ (Ensures-enqueue_new complaint docket_id event source_id w) λ id w' queued.
      enqueue-found _ _ _ _ _ (
        ap (first_where (has_key event source_id)) queued.written
        ∙ finds_queued _ _ _ queued.digest queued.reason w.email_intents h)

-- After a call for an event of a source has returned, a second call for them, whatever complaint
-- and docket it names, answers the same notification and changes nothing.
pub enqueue-once :
    (complaint : Complaint) (docket_id : Option ℕ) (event : CaseEvent) (source_id : ℕ)
    (again : Complaint) (other : Option ℕ) (w : World)
    → Ensures
        (enqueue complaint docket_id event source_id w)
        (λ id w'. enqueue again other event source_id w' ≡ (ok id, w'))
unfolding enqueue
enqueue-once complaint docket_id event source_id again other w =
    Ensures-gets _ _ _
      (Ensures-enqueue_unless complaint docket_id event source_id w _ refl again other)
