-- ===== src/Mail.antt =====
-- The SMTP adapter (app/modules/authentication/mail.py): what `_submit` makes of one dialogue with
-- the mail server.
use saps_case_dockets.Prelude.{
  ℕ, ◌+◌, Bool, true, false, Option, none, some, List, [], ◌∷◌, ◌++◌, if◌then◌else◌,
}
use saps_case_dockets.Text.{Text}
use saps_case_dockets.Schema.{Posted, SmtpRun, SmtpError, MailState, EmailReason}
use saps_case_dockets.Schema.{
  smtp_not_configured, smtp_connection_failed, smtp_rejected, smtp_authentication_failed,
  smtp_network_blocked, smtp_accepted, send_outcome_unknown,
}
use saps_case_dockets.Tx.{Tx, ok, pure, gets, ◌>>=◌}

abbrev pub SendResult : Type 0
SendResult = MailState × EmailReason

-- the `except` clauses
abbrev pub caught : SmtpRun → SmtpError → SendResult
caught run SmtpError.smtp_authentication_error = (MailState.blocked, smtp_authentication_failed)
caught run SmtpError.permission_error =
    if run.sending
    then (MailState.unknown, send_outcome_unknown)
    else (MailState.blocked, smtp_network_blocked)
caught run SmtpError.smtp_recipients_refused = (MailState.rejected, smtp_rejected)
caught run SmtpError.smtp_sender_refused = (MailState.rejected, smtp_rejected)
caught run SmtpError.smtp_data_error = (MailState.rejected, smtp_rejected)
caught run _ =
    if run.accepted
    then (MailState.accepted, smtp_accepted)
    else if run.sending
    then (MailState.unknown, send_outcome_unknown)
    else (MailState.blocked, smtp_connection_failed)

unfoldable pub submitted : SmtpRun → SendResult
submitted run = elim run.raised [
  | none ↦
      if run.refused_some
      then (MailState.rejected, smtp_rejected)
      else (MailState.accepted, smtp_accepted)
  | some e ↦ caught run e
]

-- `smtp.send_message(message)` was called
abbrev pub posted_after : Bool → Posted → List Posted → List Posted
posted_after true message posted = posted ++ message ∷ []
posted_after false message posted = posted

unfoldable pub dialogue : Text → Text → Text → Option ℕ → Tx SmtpRun
dialogue recipient subject body identity w =
    let run = w.platform.crypto.smtp w.drawn in
    (
      ok run,
      record w {
        drawn = w.drawn + 1;
        posted =
            posted_after run.sending
              (record {
                recipient = recipient;
                subject = subject;
                body = body;
                identity = identity;
                saved = w.committed;
              })
              w.posted;
      },
    )

-- `_submit(recipient, subject, body, identity)`
unfoldable pub submit : Text → Text → Text → Option ℕ → Tx SendResult
unfolding dialogue submitted
submit recipient subject body identity = do
  configured ← gets (λ w. w.platform.settings.case_mail_configured)
  if configured
      then (dialogue recipient subject body identity >>= λ run. pure (submitted run))
      else pure (MailState.blocked, smtp_not_configured)
