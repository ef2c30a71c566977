-- ===== src/Api/Series/Restore.antt =====
-- `restore_series_portion` of backend/app/api/router.py, which also restores the older kind of trash:
-- notes with `series_trashed_at` that no action holds.
use mad_devs_note_taker.Base.{
  ℕ, ◌*◌, Bool, true, false, ◌&&◌, not, if◌then◌else◌, leb, ◌==◌, opt_eq, opt_ge, opt_le, Option,
  some, none, is_none, is_some, List, [], ◌∷◌, select, any,
}
use mad_devs_note_taker.Base.Tables.{order_by}
use mad_devs_note_taker.Schemas.{distinct, SeriesPortionRequest, SeriesResponse}
use mad_devs_note_taker.Models.{
  Db, Text, next_version, RecurrenceSeries, Note, RecurringTrashAction, OccurrenceException,
}
use mad_devs_note_taker.Session.{
  M, ◌>>=◌, ◌>>◌, raise, raise_if, lift, gets, for_each, api_error, one, one_or_none, utcnow, minus,
  day, Error,
}
use mad_devs_note_taker.Reminders.{reconcile_reminders}
use mad_devs_note_taker.Notes.{write_note, offsets_of}
use mad_devs_note_taker.Exceptions.{is_exception}
use mad_devs_note_taker.Api.Series.{locked_series, series_response_data}
use mad_devs_note_taker.Api.Series.Trash.{by_id, portion_boundary, finish_series, restore_action}

-- `Note.recurrence_key >= requested`, when a key was requested.
abbrev pub from_requested : Option ℕ → Note → Bool
from_requested none n = true
from_requested (some k) n = opt_ge n.recurrence_key k

-- `note.recurrence_key == requested`, when both are there.
abbrev pub differs_from_boundary : Option ℕ → ℕ → Bool
differs_from_boundary none boundary = false
differs_from_boundary (some k) boundary = not (k == boundary)

abbrev pub held_ids : List Note → List ℕ
held_ids [] = []
held_ids (n ∷ ns) = elim n.current_recurring_trash_action_id [
  | none ↦ held_ids ns
  | some a ↦ a ∷ held_ids ns
]

-- The actions that hold notes of the portion.
abbrev pub action_ids : ℕ → Option ℕ → Db → List ℕ
action_ids series_id requested s = order_by leb (
    distinct (
      held_ids (
        select (λ (n : Note). opt_eq n.series_id series_id && from_requested requested n) s.notes)))

abbrev pub is_legacy : ℕ → Option ℕ → Note → Bool
is_legacy series_id requested n =
    opt_eq n.series_id series_id
    && is_some n.series_trashed_at
    && is_none n.current_recurring_trash_action_id
    && is_some n.deleted_at
    && is_none n.superseded_at
    && is_none n.purged_at
    && from_requested requested n

abbrev pub individual : Error
individual =
    api_error 409 "individual_restore_required" "Restore each trash action individually." [] none

-- The portion is what one action holds.
unfoldable pub restore_one_action : ℕ → SeriesPortionRequest → Bool → M RecurrenceSeries
restore_one_action action_id payload has_legacy = do
  raise_if has_legacy individual
  action ←
      λ s. lift (one (select (λ (a : RecurringTrashAction). a.id == action_id) s.trash_actions)) s
  raise_if (differs_from_boundary payload.recurrence_key action.boundary_recurrence_key) individual
  restore_action action_id payload.series_version none

abbrev pub cancelled_by : Option OccurrenceException → Bool
cancelled_by none = false
cancelled_by (some x) = x.cancelled

abbrev pub undeleted : ℕ → Note → Note
undeleted now n = record n {
  series_trashed_at = none;
  deleted_at = none;
  updated_at = now;
  version = next_version n.version;
}

-- A note whose occurrence was cancelled by itself stays deleted.
unfoldable pub restore_legacy_note : ℕ → ℕ → Option OccurrenceException → Note → M (Unit {0})
restore_legacy_note series_id now exception note =
    if cancelled_by exception
    then write_note note.id
        (λ n. record n { series_trashed_at = none; version = next_version n.version })
    else (do
      write_note note.id (λ _. undeleted now note)
      offsets ← gets (offsets_of note.id)
      reconcile_reminders (undeleted now note) offsets false now)

abbrev pub exceptions_of : ℕ → Option ℕ → Db → List OccurrenceException
exceptions_of series_id none s = []
exceptions_of series_id (some k) s = select (is_exception series_id k) s.exceptions

unfoldable pub restore_legacy : ℕ → ℕ → Note → M (Unit {0})
restore_legacy series_id now note = do
  exception ← λ s. lift (one_or_none (exceptions_of series_id note.recurrence_key s)) s
  restore_legacy_note series_id now exception note

abbrev pub legacy_notes : ℕ → ℕ → Db → List Note
legacy_notes series_id boundary s = order_by by_id (
    select
      (λ (n : Note).
        opt_eq n.series_id series_id
        && opt_ge n.recurrence_key boundary
        && is_some n.series_trashed_at
        && is_none n.superseded_at)
      s.notes)

-- The portion is what was trashed before there were actions.
unfoldable pub restore_legacy_portion : RecurrenceSeries → Option ℕ → M RecurrenceSeries
restore_legacy_portion series requested = do
  boundary ← portion_boundary series requested true
  notes ← gets (legacy_notes series.id boundary)
  now ← utcnow
  cutoff ← lift (minus now (30 * day))
  raise_if (any (λ (n : Note). opt_le n.series_trashed_at cutoff) notes)
      (api_error 410 "retention_expired" "The series portion can no longer be restored" [] none)
  for_each notes (restore_legacy series.id now)
  finish_series series now

abbrev pub restore_portion :
    RecurrenceSeries → SeriesPortionRequest → Bool → List ℕ → M RecurrenceSeries
restore_portion series payload has_legacy [] = restore_legacy_portion series payload.recurrence_key
restore_portion series payload has_legacy (a ∷ []) = restore_one_action a payload has_legacy
restore_portion series payload has_legacy (a ∷ b ∷ others) = raise individual

unfoldable pub restore_series_portion : (Text → Text) → ℕ → SeriesPortionRequest → M SeriesResponse
restore_series_portion lower series_id payload = do
  series ← locked_series series_id (some payload.series_version)
  actions ← gets (action_ids series.id payload.recurrence_key)
  has_legacy ← gets (λ s. any (is_legacy series.id payload.recurrence_key) s.notes)
  series' ← restore_portion series payload has_legacy actions
  series_response_data lower series'
