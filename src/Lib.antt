-- ===== src/Lib.antt =====
-- Verification of the backend of a note taker: notes and recurring series with reminders, whose jobs send
-- emails and whose events reach the browser. Paths are from the repository's root.
--
-- The parts and the files that model them:
--   Models, Models.Rows     backend/app/db/models.py: a record for each table; `Db` holds all tables,
--                           with the identifiers and clock readings that a transaction draws.
--   Session                 transactions (`session.begin()`) as functions of `Db` that return a value and
--                           new tables, or raise and keep the old ones; ApiError (backend/app/api/errors.py).
--   Schemas                 backend/app/api/schemas.py: requests, responses, and their own validators.
--   Calendar, Recurrence    `expand_occurrences` of backend/app/domain/recurrence.py and the dates below it.
--   Exceptions              `set_exception` of the same file.
--   Reminders, Deliveries   `reconcile_reminders` of backend/app/domain/notes.py, and the order in which a
--                           delivery's states follow one another.
--   Notes                   the rest of backend/app/domain/notes.py, and `add_event`.
--   Api.*                   the handlers of backend/app/api/router.py: Profile, Tags, NoteHandlers, Queries
--                           (lists, calendar, upcoming), TrashGroups (trash and notifications) and Series
--                           (Create, Checks and Split, Trash, Restore).
--   Jobs.*                  backend/app/jobs: Claim, Authorize and Deliver (reminders.py), Outbox
--                           (outbox.py), Maintenance (maintenance.py).
--   Email                   the outcome of backend/app/email/senders.py, as the jobs see it.
--   Storage.*               backend/migrations/versions/0004_storage_contract.py: the check constraints
--                           (Storage), the writes that respect them (Rows), the repair of older rows
--                           (Upgrade, Repair) and the triggers (Triggers).
--   System.*                all writing handlers and jobs as requests to one system (Requests, Execution), what
--                           each of them keeps (Keeps to Jobs), and sequences of them (History).
--   Realtime                backend/app/realtime/broker.py.
--   ComposeTarget           scripts/compose_db_target.py.
--   Fixtures                sample rows for the modules named Tests.
--
-- How they interact: a handler changes a note or a series and reconciles the reminders; that leaves
-- deliveries, which the scan claims, `authorize_delivery` checks again under locks, and `deliver` sends. Each
-- change adds an event to the outbox; `publish_batch` publishes it to a channel that `subscribe` broadcasts.
--
-- Conventions. Identifiers are numbers from a counter (`uuid4` never repeats), instants are microseconds
-- since 0001-01-01T00:00Z, texts are lists of code points. SQLAlchemy's version column counts one at each
-- flush that updates a row. A transaction runs alone: row locks are trivial in it, SKIP LOCKED passes over
-- the rows that the parameter `locked` names, and between transactions any other may have run, but for the
-- batches of one scan or cleanup, which follow one another at once and commit one by one (`Job`). Where the
-- program computes with the time zone data base, `str.casefold`, `str.lower`, `urlsplit`, the search
-- text and the case folding of the data base, the SMTP server or redis, the model takes a parameter.
--
-- Fuel. The loop of the expansion takes as many rounds as there are keys of dates up to the end date, and
-- each round moves the cursor on by one at least; the scan takes one batch of 100 rows more than are
-- waiting. Both bounds are proved to be enough.
--
-- Not modelled: pydantic's own checks and the conversion of errors to HTTP responses, SMTP and redis
-- themselves, celery and its schedule, configuration, the other migrations, the WebSocket route, the midnights
-- of `upcoming` (arguments here), `materialize_note` (nothing calls it), the parameter `future_only` (nothing reads it), and the frontend.
pub mod Base
pub mod Calendar
pub mod Models
pub mod Fixtures
pub mod Recurrence
pub mod Schemas
pub mod Session
pub mod Storage
pub mod Deliveries
pub mod Email
pub mod Jobs
pub mod Notes
pub mod Exceptions
pub mod Api
pub mod Reminders
pub mod Realtime
pub mod ComposeTarget
pub mod System
