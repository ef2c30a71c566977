-- ===== src/Api/Series/Trash.antt =====
-- The trash of series, of backend/app/api/router.py: `_portion_boundary`, `trash_series_portion`,
-- `_restore_trash_action`, `restore_trash_action`, `restore_series_portion`, and `restore_note`.
use mad_devs_note_taker.Base.{
  ℕ, ◌*◌, Bool, false, ◌&&◌, ◌||◌, not, if◌then◌else◌, leb, ◌==◌, opt_eq, opt_ge, Option, some,
  none, is_none, is_some, List, [], ◌∷◌, ◌++◌, select, map, min, any, contains, is_nil, length,
  find_first,
}
use mad_devs_note_taker.Base.Tables.{order_by, update_where}
use mad_devs_note_taker.Schemas.{RestoreRequest, NoteResponse, SeriesPortionRequest, SeriesResponse}
use mad_devs_note_taker.Models.{
  Db, Text, next_version, RecurrenceSeries, Note, RecurringTrashAction, RecurringTrashActionMember,
}
use mad_devs_note_taker.Session.{
  found_or, M, ◌>>=◌, ◌>>◌, pure, raise, raise_if, lift, gets, modify, for_each, api_error,
  one_or_none, uuid4, utcnow, minus, day, Error,
}
use mad_devs_note_taker.Reminders.{reconcile_reminders}
use mad_devs_note_taker.Notes.{
  add_event, write_note, write_series, touch_series, offsets_of, require_note, check_note_version,
  note_response,
}
use mad_devs_note_taker.Api.NoteHandlers.{restore_single}
use mad_devs_note_taker.Api.Series.{locked_series, series_response_data}

-- Whether the note is one that the boundary is looked for among.
abbrev pub in_portion : ℕ → Bool → Note → Bool
in_portion series_id restoring n =
    opt_eq n.series_id series_id
    && is_none n.superseded_at
    && (not restoring || is_some n.series_trashed_at)

-- `func.min`: null of no rows and of nulls alone.
abbrev pub least_of : Option ℕ → Option ℕ → Option ℕ
least_of none b = b
least_of (some a) none = some a
least_of (some a) (some b) = some (min a b)

abbrev pub least_key : List Note → Option ℕ
least_key [] = none
least_key (n ∷ ns) = least_of n.recurrence_key (least_key ns)

abbrev pub requested_or : Option ℕ → Option ℕ → Option ℕ
requested_or none least = least
requested_or (some k) least = some k

abbrev pub empty_portion : Bool → Error
empty_portion restoring =
    api_error 409 (if restoring then "nothing_to_restore" else "empty_series")
      "The series portion is empty" [] none

unfoldable pub portion_boundary : RecurrenceSeries → Option ℕ → Bool → M ℕ
portion_boundary series requested restoring = do
  least ← gets (λ s. least_key (select (in_portion series.id restoring) s.notes))
  boundary ← found_or (raise (empty_portion restoring)) (requested_or requested least)
  row ← λ s.
      lift
        (one_or_none (
          select
            (λ (n : Note). in_portion series.id restoring n && opt_eq n.recurrence_key boundary)
            s.notes))
        s
  raise_if (is_none row)
      (api_error 404 "occurrence_not_found" "Selected occurrence not found" [] none)
  pure boundary

abbrev pub by_id : Note → Note → Bool
by_id a b = leb a.id b.id

abbrev pub is_candidate : ℕ → ℕ → Note → Bool
is_candidate series_id boundary n =
    opt_eq n.series_id series_id
    && opt_ge n.recurrence_key boundary
    && is_none n.deleted_at
    && is_none n.superseded_at
    && is_none n.purged_at

-- The candidates, read again under their locks.
abbrev pub locked_candidates : List ℕ → Db → List Note
locked_candidates ids s = order_by by_id (
    select
      (λ (n : Note).
        contains n.id ids && is_none n.deleted_at && is_none n.superseded_at && is_none n.purged_at)
      s.notes)

abbrev pub held : ℕ → ℕ → Note → Note
held action_id now n = record n {
  deleted_at = some now;
  current_recurring_trash_action_id = some action_id;
  updated_at = now;
  version = next_version n.version;
}

-- One note of the action goes to the trash.
unfoldable pub hold_note : ℕ → ℕ → Note → M (Unit {0})
hold_note action_id now note = do
  write_note note.id (λ _. held action_id now note)
  offsets ← gets (offsets_of note.id)
  reconcile_reminders (held action_id now note) offsets false now

unfoldable pub seal_action : ℕ → ℕ → M (Unit {0})
seal_action id at = modify (λ s. record s {
  trash_actions =
      update_where (λ (a : RecurringTrashAction). a.id == id)
        (λ a. record a { sealed_at = some at }) s.trash_actions;
})

-- The event of a series whose row was touched.
unfoldable pub finish_series : RecurrenceSeries → ℕ → M RecurrenceSeries
finish_series series now = do
  let series' = touch_series now series
  write_series series.id (λ _. series')
  add_event "series.updated" series'.id series'.version (some series'.id)
  pure series'

-- `trashed_at` is the database's `clock_timestamp()`.
unfoldable pub add_action : ℕ → ℕ → M RecurringTrashAction
add_action series_id boundary = do
  id ← uuid4
  trashed_at ← utcnow
  let action : RecurringTrashAction = record {
    id = id;
    series_id = series_id;
    boundary_recurrence_key = boundary;
    trashed_at = trashed_at;
    sealed_at = none;
  }
  modify (λ s. record s { trash_actions = s.trash_actions ++ action ∷ [] })
  pure action

-- The notes of the portion, read again under their locks, become members of the action and go to the trash.
unfoldable pub fill_action : RecurringTrashAction → List ℕ → M (Unit {0})
fill_action action candidate_ids = do
  notes ← gets (locked_candidates candidate_ids)
  raise_if (not (length notes == length candidate_ids))
      (api_error 409 "version_conflict" "The series portion changed" [] none)
  modify (λ s. record s {
    trash_members =
        s.trash_members
        ++ map (λ (n : Note). record { action_id = action.id; note_id = n.id }) notes;
  })
  for_each notes (hold_note action.id action.trashed_at)

unfoldable pub trash_series_portion : ℕ → SeriesPortionRequest → M (Unit {0})
trash_series_portion series_id payload = do
  series ← locked_series series_id (some payload.series_version)
  boundary ← portion_boundary series payload.recurrence_key false
  candidate_ids ←
      gets (λ s. map (λ (n : Note). n.id) (select (is_candidate series.id boundary) s.notes))
  raise_if (is_nil candidate_ids) (empty_portion false)
  action ← add_action series.id boundary
  fill_action action candidate_ids
  sealed_at ← utcnow
  finish_series series action.trashed_at
  seal_action action.id sealed_at

abbrev pub member_notes : ℕ → Db → List Note
member_notes action_id s = order_by by_id (
    select
      (λ (n : Note).
        any (λ (m : RecurringTrashActionMember). (m.action_id == action_id) && (m.note_id == n.id))
          s.trash_members)
      s.notes)

abbrev pub released : ℕ → Note → Note
released now n = record n {
  current_recurring_trash_action_id = none;
  deleted_at = none;
  updated_at = now;
  version = next_version n.version;
}

unfoldable pub release_note : ℕ → Note → M (Unit {0})
release_note now note = do
  write_note note.id (λ _. released now note)
  offsets ← gets (offsets_of note.id)
  reconcile_reminders (released now note) offsets false now

-- The note that was asked for, when one was, is in the action and has the version that was seen.
unfoldable pub check_selected : Option (ℕ × ℕ) → List Note → M (Unit {0})
check_selected none notes = pure tt
check_selected (some (note_id, expected)) notes = do
  note ←
      found_or (raise (api_error 404 "not_found" "Note not found" [] none))
        (find_first (λ (n : Note). n.id == note_id) notes)
  check_note_version note expected

-- The whole action is restored, or nothing.
unfoldable pub restore_action : ℕ → ℕ → Option (ℕ × ℕ) → M RecurrenceSeries
restore_action action_id expected_series_version selected = do
  row ← λ s.
      lift (one_or_none (select (λ (a : RecurringTrashAction). a.id == action_id) s.trash_actions))
        s
  action ←
      found_or (raise (api_error 404 "trash_action_not_found" "Trash action not found" [] none)) row
  series ← locked_series action.series_id (some expected_series_version)
  notes ← gets (member_notes action.id)
  let current = select (λ (n : Note). opt_eq n.current_recurring_trash_action_id action.id) notes
  raise_if (is_nil current)
      (api_error 409 "nothing_to_restore" "Trash action is already closed" [] none)
  raise_if (not (length current == length notes))
      (api_error 409 "trash_invariant_breach" "Trash action membership is incomplete" [] none)
  check_selected selected notes
  now ← utcnow
  cutoff ← lift (minus now (30 * day))
  raise_if (leb action.trashed_at cutoff)
      (api_error 410 "retention_expired" "The trash action can no longer be restored" [] none)
  for_each notes (release_note now)
  finish_series series now

unfoldable pub restore_trash_action : (Text → Text) → ℕ → ℕ → M SeriesResponse
restore_trash_action lower action_id expected_series_version = do
  series ← restore_action action_id expected_series_version none
  series_response_data lower series

abbrev pub restore_held : ℕ → RestoreRequest → ℕ → Option ℕ → M NoteResponse
restore_held note_id payload action_id none = raise (
    api_error 422 "validation_error" "Recurring note restore requires expected_series_version"
      ("expected_series_version" ∷ []) none)
restore_held note_id payload action_id (some expected) = do
  restore_action action_id expected (some (note_id, payload.expected_version))
  note ← require_note note_id
  gets (note_response note)

abbrev pub restore_by : ℕ → RestoreRequest → Option ℕ → M NoteResponse
restore_by note_id payload none = restore_single note_id payload
restore_by note_id payload (some action_id) =
    restore_held note_id payload action_id payload.expected_series_version

-- A note that a trash action holds comes back with the whole action.
unfoldable pub restore_note : ℕ → RestoreRequest → M NoteResponse
restore_note note_id payload = do
  candidate ← require_note note_id
  restore_by note_id payload candidate.current_recurring_trash_action_id
