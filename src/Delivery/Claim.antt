-- ===== src/Delivery/Claim.antt =====
-- The claim of a mail before it is sent (app/modules/communications/case_email.py, `process_one`).
use saps_case_dockets.Prelude.{
  ℕ, String, ◌+◌, ◌≡◌, refl, ◌∙◌, Bool, true, false, ◌&&◌, Option, none, some, List, [], ◌∷◌, ◌++◌,
  ◌==◌, exists_where, update_where, if◌then◌else◌, arith,
}
use saps_case_dockets.Text.{Text}
use saps_case_dockets.Schema.{
  World, Notification, EmailReason, MailState, Posted, SmtpRun, smtp_not_configured, AuditLog,
  AuditMetadata,
}
use saps_case_dockets.Tx.{Tx, pure, Result, ◌>>=◌}
use saps_case_dockets.Tx.Settles.{
  Settles, Settles-assoc, Settles-gets, Settles-new_id, Settles-or_raise, Settles-pure,
  Settles-put_comms, Settles-then, Settles-utcnow, Settles-commit, Settles-session_call,
}
use saps_case_dockets.Mail.{SendResult, submit, submitted, dialogue, posted_after}
use saps_case_dockets.Delivery.{
  is_waiting, change_mail, mail_entry, settle, add_attempt, send_mail, block_mail, send_unless,
  process_row, process_one, claimed,
}

-- a notification of that identifier that waits to be sent
abbrev pub waits : ℕ → Notification → Bool
waits id n = n.id == id && is_waiting n.status

-- The mails that were handed over since: none, or one, of which no waiting row was committed.
pub data Handed (before after : List Posted) : Type 0 where
  nothing : after ≡ before → Handed before after
  one_mail :
      (id : ℕ) (message : Posted)
      → after ≡ before ++ message ∷ []
      → message.identity ≡ some id
      → exists_where (waits id) message.saved.notifications ≡ false
      → Handed before after

claimed-waits :
    (id : ℕ) (body : Text) (rows : List Notification)
    → exists_where (waits id) (update_where (λ n. n.id == id) (claimed body) rows) ≡ false
unfolding exists_where update_where
claimed-waits id body [] = refl
claimed-waits id body (n ∷ rows) = ground (arith, claimed-waits id body rows)

-- what a submission handed over, and what was committed then
data Posting (identity : Option ℕ) (w : World) (rows : List Posted) : Type 0 where
  unposted : rows ≡ w.posted → Posting identity w rows
  posted_message :
      (message : Posted)
      → rows ≡ w.posted ++ message ∷ []
      → message.identity ≡ identity
      → message.saved ≡ w.committed
      → Posting identity w rows

posted_one :
    (identity : Option ℕ) (w : World) (sending : Bool) (message : Posted)
    → message.identity ≡ identity
    → message.saved ≡ w.committed
    → Posting identity w (posted_after sending message w.posted)
posted_one identity w true message i s = posted_message message refl i s
posted_one identity w false message i s = unposted refl

module _ {ℓ κ} {B : Type ℓ} {Q : Result B → World → Type κ} where
  Settles-mail_entry :
      (action : String) (id : ℕ) (metadata : Option AuditMetadata) (w : World) (k : Unit {0} → Tx B)
      → ((logs : List AuditLog)
          → Settles
              (k tt (record w {
                db = record w.db { comms = record w.comms { audit_logs = logs } };
                drawn = w.drawn + 1;
              }))
              Q)
      → Settles ((mail_entry action id metadata >>= k) w) Q
  unfolding mail_entry
  Settles-mail_entry action id metadata w k next =
      Settles-assoc _ _ _ _ (Settles-new_id _ _ (Settles-put_comms _ _ _ (next _)))

  Settles-dialogue :
      (recipient subject body : Text) (identity : Option ℕ) (w : World) (k : SmtpRun → Tx B)
      → ((run : SmtpRun) (n : ℕ) (rows : List Posted)
          → Posting identity w rows
          → Settles (k run (record w { drawn = n; posted = rows })) Q)
      → Settles ((dialogue recipient subject body identity >>= k) w) Q
  unfolding dialogue ◌>>=◌
  Settles-dialogue recipient subject body identity w k next =
      next _ _ _ (posted_one identity w (w.platform.crypto.smtp w.drawn).sending _ refl refl)

  Settles-submit_if :
      (configured : Bool) (recipient subject body : Text) (identity : Option ℕ) (w : World)
      (k : SendResult → Tx B)
      → ((result : SendResult) (n : ℕ) (rows : List Posted)
          → Posting identity w rows
          → Settles (k result (record w { drawn = n; posted = rows })) Q)
      → Settles
          (((if configured
                then (dialogue recipient subject body identity >>= λ run. pure (submitted run))
                else pure (MailState.blocked, smtp_not_configured))
              >>= k)
            w)
          Q
  Settles-submit_if true recipient subject body identity w k next = Settles-assoc _ _ _ _ (
      Settles-dialogue _ _ _ identity _ _
        λ run n rows posting. Settles-then _ _ _ (next _ n rows posting))
  Settles-submit_if false recipient subject body identity w k next =
      Settles-then _ _ _ (next _ w.drawn w.posted (unposted refl))

  -- what was handed over by a submission
  Settles-submit :
      (recipient subject body : Text) (identity : Option ℕ) (w : World) (k : SendResult → Tx B)
      → ((result : SendResult) (n : ℕ) (rows : List Posted)
          → Posting identity w rows
          → Settles (k result (record w { drawn = n; posted = rows })) Q)
      → Settles ((submit recipient subject body identity >>= k) w) Q
  unfolding submit
  Settles-submit recipient subject body identity w k next =
      Settles-assoc _ _ _ _
        (Settles-gets _ _ _ _ refl (Settles-submit_if _ _ _ _ identity w k next))

  Settles-settle :
      (state : MailState) (id : ℕ) (reason : EmailReason) (w : World) (k : Unit {0} → Tx B)
      → ((w' : World) → w'.posted ≡ w.posted → Settles (k tt w') Q)
      → Settles ((settle state id reason >>= k) w) Q
  unfolding settle change_mail
  Settles-settle MailState.accepted id reason w k next =
      Settles-assoc _ _ _ _ (Settles-utcnow _ _ (Settles-put_comms _ _ _ (next _ refl)))
  Settles-settle MailState.unknown id reason w k next = Settles-put_comms _ _ _ (next _ refl)
  Settles-settle MailState.rejected id reason w k next =
      Settles-assoc _ _ _ _ (Settles-utcnow _ _ (Settles-put_comms _ _ _ (next _ refl)))
  Settles-settle MailState.blocked id reason w k next =
      Settles-assoc _ _ _ _ (Settles-utcnow _ _ (Settles-put_comms _ _ _ (next _ refl)))

Posting-Handed :
    (id : ℕ) (w : World) (before rows : List Posted)
    → Posting (some id) w rows
    → w.posted ≡ before
    → exists_where (waits id) w.committed.notifications ≡ false
    → Handed before rows
Posting-Handed id w before rows (unposted e) same dead = nothing (e ∙ same)
Posting-Handed id w before rows (posted_message message e i s) same dead =
    one_mail id message (rw (← same) e) i (rw s dead)

send_mail-Handed :
    (row : Notification) (w : World) → Settles (send_mail row w) λ _ w'. Handed w.posted w'.posted
unfolding send_mail change_mail add_attempt
send_mail-Handed row w = Settles-or_raise _ _ _ _ (nothing refl) λ sealed.
    Settles-gets _ _ _ _ refl (
      Settles-or_raise _ _ _ _ (nothing refl) λ destination. Settles-gets _ _ _ _ refl (
        Settles-or_raise _ _ _ _ (nothing refl) λ link. Settles-gets _ _ _ _ refl (
          Settles-put_comms _ _ _ (
            Settles-mail_entry _ _ _ _ _ λ logs. Settles-commit _ _ (
              Settles-submit _ _ _ (some row.id) _ _ λ result n rows posting.
                Settles-settle _ _ _ _ _ λ w1 same. Settles-assoc _ _ _ _ (
                  Settles-new_id _ _ (
                    Settles-put_comms _ _ _ (
                      Settles-mail_entry _ _ _ _ _ λ _. Settles-commit _ _ (
                        Settles-pure _ _ (
                          rw same (
                            Posting-Handed row.id _ w.posted rows posting refl
                              (claimed-waits row.id _ w.notifications))))))))))))

unless_Handed :
    (row : Notification) (reason : Option EmailReason) (w : World)
    → Settles (send_unless row reason w) λ _ w'. Handed w.posted w'.posted
unfolding send_unless block_mail change_mail
unless_Handed row none w = send_mail-Handed row w
unless_Handed row (some reason) w = Settles-utcnow _ _ (
    Settles-put_comms _ _ _
      (Settles-mail_entry _ _ _ _ _ λ logs. Settles-commit _ _ (Settles-pure _ _ (nothing refl))))

row_Handed :
    (row : Option Notification) (w : World)
    → Settles (process_row row w) λ _ w'. Handed w.posted w'.posted
unfolding process_row
row_Handed none w = Settles-pure _ _ (nothing refl)
row_Handed (some row) w = Settles-gets _ _ _ _ refl (
    Settles-or_raise _ _ _ _ (nothing refl)
      λ intent. Settles-gets _ _ _ _ refl (Settles-gets _ _ _ _ refl (unless_Handed row _ _)))

process_one-Settles :
    (ids : Option (List ℕ)) (w : World)
    → Settles (process_one ids w) λ _ w'. Handed w.posted w'.posted
unfolding process_one
process_one-Settles ids w = Settles-session_call _ _ (Settles-gets _ _ _ _ refl (row_Handed _ _))

-- Whether the call returns or raises, it has handed at most one mail to the server, and only after
-- the claim was committed: of the notification it belongs to, no row that waits to be sent was left
-- in the database then.
pub process_one-Handed :
    (ids : Option (List ℕ)) (w : World)
    → let (r, w') = process_one ids w in Handed w.posted w'.posted
process_one-Handed ids w = (process_one-Settles ids w).holds
