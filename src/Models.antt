-- ===== src/Models.antt =====
-- backend/app/db/models.py: one record for each table, one field for each column, and the tables
-- together with what a transaction draws from outside (identifiers and the time).
--
-- Identifiers (UUIDs) and instants (microseconds since 0001-01-01T00:00Z) are numbers, text is its
-- list of code points. `created_at` is kept where the program reads it; `search_text` is computed by
-- the database.
mod Rows
pub use Rows.*
use mad_devs_note_taker.Base.{ℕ, ◌+◌, List}

-- `version_id_col`: the mapper counts the versions of a row, one more at each flush that updates it.
abbrev pub next_version : ℕ → ℕ
next_version version = version + 1

pub record Db : Type 0 where
  pub user_settings : List UserSettings
  pub tags : List Tag
  pub recurrence_series : List RecurrenceSeries
  pub notes : List Note
  pub trash_actions : List RecurringTrashAction
  pub trash_members : List RecurringTrashActionMember
  pub note_tags : List NoteTag
  pub series_tags : List SeriesTag
  pub exceptions : List OccurrenceException
  pub rules : List ReminderRule
  pub templates : List SeriesReminderTemplate
  pub deliveries : List ReminderDelivery
  pub notifications : List Notification
  pub outbox : List OutboxEvent
  -- The next value of `uuid4`, the readings of `utcnow`, and the database's own `now()`.
  pub next_uuid : ℕ
  pub clock : ℕ → ℕ
  pub reads : ℕ
  pub server_now : ℕ
