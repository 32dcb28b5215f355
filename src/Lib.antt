-- ===== src/Lib.antt =====
-- A verification library for the case workflow of the complaint and docket system: the decision on
-- a complaint, its docket, the commander's review, the investigation, what is told and numbered on
-- the way, and the accounts and sign-ins of those who take part.
--
-- The program is a FastAPI application over PostgreSQL. Each service of app/modules reads and
-- writes rows through one SQLAlchemy session, commits when it returns, and rolls back when it
-- raises. The parts and their files:
--   Schema            the rows of app/modules/*/models.py that the services use, with their
--                     controlled values (Enums), and the database with its surroundings (State)
--   Store             the unique keys, check constraints and triggers of migrations/versions that
--                     guard the writes; Store/Writes the writes themselves, Store/Effects what a
--                     write that returned has done
--   Tx                a service call as a function from the world to a result and a world;
--                     `transactional` is the wrapper of app/modules/investigations/service.py and
--                     the try block that the other services write out; Tx/Rules the proof rules,
--                     Tx/Settles those for calls that may raise
--   Access            the queries for roles, permissions and active officers
--   Identifiers       app/modules/system/service.py
--   Notify            audit entries, app/modules/communications/notifications.py, and `enqueue` of
--                     app/modules/communications/case_email.py with what it calls
--   Dockets           app/modules/dockets/service.py: `open` is `open_docket`
--   Refusals          app/modules/refusals/service.py
--   Investigations    app/modules/investigations/service.py and availability.py: `get` is
--                     `get_docket`
--   Evidence          app/modules/evidence/service.py: `register` is `register_evidence`
--   Oversight         app/modules/refusals/commander_review.py
--   Complaints        `start_review` of app/modules/complaints/service.py
--   Intake            `register` of app/modules/complaints/service.py with the uploads it attaches,
--                     and the scope, witnesses, corrections of statements and initial evidence of
--                     app/modules/complaints/intake.py: `append_statement` is the complaint's
--   Feedback          app/modules/feedback/service.py and repository.py
--   Alerts            the scopes of app/modules/communications/common.py, and the list and the
--                     transition, here `move_alert`, of app/modules/alerts/service.py
--   Authentication    app/modules/authentication: SignIn is service.py up to the authenticator,
--                     Rotation its refresh and logout, Email email_flow.py, Recovery recovery.py,
--                     Guard dependencies.py; the modules below them carry the proofs, and
--                     Steps and Settles the proof rules of the calls they share
--   Administration    `create` and `change` of app/modules/administration/service.py, here
--                     `create_staff` and `change_staff`
--   Mail, Delivery    `_submit` of app/modules/authentication/mail.py, and `process_one` and `retry`
--                     of app/modules/communications/case_email.py
--   Listings          the paged lists of the docket, investigation and evidence services
--   Rows, Text        tables as lists of rows, oldest first, and texts as lists of code points
--   Tests             the workflow run on a small station
-- `decide` calls `create_from_acceptance` of the dockets; all services call the audit, the
-- notifications and the outbox. A mail that was queued there is sent by the worker of Delivery.
-- `change_staff`, `logout` and `reset_password` end sessions, which `current_session` reads at each
-- request. `Ensures r Q` says that `Q` holds of the value and the world of `r` if the call
-- returned, and `Settles r Q` that it holds of the outcome either way; Tests runs each service on a station where it does.
--
-- The world holds the session's view of the database and `committed`, what is stored. The services
-- of Authentication commit in the middle of a call and before they deny one; Tx/Commits has `commit`
-- and their wrappers `service_call` and `session_call`, which drop what was not committed. `posted`
-- is the list of mails that the server was handed, each with the database as it was stored then.
--
-- Code of other packages is the record `Platform` of Schema/State: the clock and `uuid.uuid4` as
-- sequences, the calendar of Johannesburg, `str.strip`, `str.casefold`, the digest, the cipher and
-- `urlsplit`; its record `crypto` holds the hashes, signatures and random values, the one-time codes
-- and the dialogue with the mail server. No theorem assumes anything of it but, where it says so,
-- that two times lie in one year, or which session a token names. Identifiers and times are natural
-- numbers. The fuel of the decimal digits of a number is one more than the number, which has fewer
-- digits than that; the fuel of a chain of sessions is the number of sessions, of
-- which it meets none twice.
--
-- A table is a list of rows, and a query its WHERE, ORDER BY, LIMIT and OFFSET on that list.
-- `transactional` puts back the database that the call began with when it raises: the services that
-- it wraps commit at their end only. Each reading of the clock takes the next of the sequence, and a
-- theorem that speaks of a time says which reading it is.
--
-- Calls run one after another: row and advisory locks, which make them do so, are left out, and so
-- are the loss of the database and a commit that fails. A constraint is checked when its row is
-- written, not at the flush behind it. Python iterates the set of escalation targets in either
-- order; here the commander's comes first. `created_at` and `updated_at` are left out where no
-- handler reads them, and so are the validators of the request schemas, which reject requests
-- before the services see them.
-- The registration at the station with its consent by mail, the upload of files, the files of
-- evidence, invitations to meetings, `evaluate` of the alerts, documents and dashboards, and the lists
-- of the administration are not modelled; nor are the routers, the migrations' changes of data, and
-- the scripts.
pub mod Prelude
pub mod Text
pub mod Schema
pub mod Rows
pub mod Tx
pub mod Access
pub mod Administration
pub mod Alerts
pub mod Authentication
pub mod Mail
pub mod Feedback
pub mod Identifiers
pub mod Notify
pub mod Store
pub mod Complaints
pub mod Delivery
pub mod Dockets
pub mod Evidence
pub mod Refusals
pub mod Oversight
pub mod Intake
pub mod Investigations
pub mod Listings
pub mod Tests
