-- ===== src/Api/NoteHandlers.antt =====
-- Notes: `create_note`, `get_note`, `update_note`, `delete_note` and `restore_note` (of a note that no
-- recurring trash action holds; the other case is in Api/Series/Trash).
pub mod Editing
mod Tests
use mad_devs_note_taker.Base.{
  ℕ, ◌*◌, true, false, not, opt_le, ◌==◌, Option, some, none, is_none, is_some, [], ◌∷◌, ◌++◌,
}
use mad_devs_note_taker.Base.Text.{strip, is_empty}
use mad_devs_note_taker.Models.{Text, next_version, Note}
use mad_devs_note_taker.Schemas.{NoteFields, NoteUpdate, NoteResponse, RestoreRequest}
use mad_devs_note_taker.Session.{
  M, ◌>>=◌, ◌>>◌, raise_if, lift, gets, modify, when, api_error, minus, day, uuid4, utcnow, Current,
  Error,
}
use mad_devs_note_taker.Reminders.{reconcile_reminders}
use mad_devs_note_taker.Notes.{
  add_event, note_response, offsets_of, require_note, check_note_version, replace_tags, write_note,
  lock_series,
}
use mad_devs_note_taker.Exceptions.{set_exception}

abbrev pub blank_title : Error
blank_title = api_error 422 "validation_error" "Invalid note" ("title" ∷ []) none

abbrev pub new_note : ℕ → Text → NoteFields → Option ℕ → Option ℕ → ℕ → Note
new_note id title fields series_id recurrence_key server_now = record {
  id = id;
  title = title;
  body = fields.body;
  starts_at = fields.starts_at;
  active = fields.active;
  deleted_at = none;
  superseded_at = none;
  series_trashed_at = none;
  purged_at = none;
  series_id = series_id;
  recurrence_key = recurrence_key;
  current_recurring_trash_action_id = none;
  updated_at = server_now;
  version = 1;
}

unfoldable pub create_note : NoteFields → M NoteResponse
create_note payload = do
  now ← utcnow
  raise_if (is_empty (strip payload.title)) blank_title
  id ← uuid4
  note ← gets (λ s. new_note id (strip payload.title) payload none none s.server_now)
  modify (λ s. record s { notes = s.notes ++ note ∷ [] })
  replace_tags note payload.tag_ids
  reconcile_reminders note payload.reminder_offsets_minutes false now
  add_event "note.created" note.id note.version none
  gets (note_response note)

-- `_locked_note_and_series`: the series first, then the note again.
unfoldable pub locked_note_and_series : ℕ → Option ℕ → M Note
locked_note_and_series note_id expected_series_version = do
  candidate ← require_note note_id
  lock_series candidate.series_id expected_series_version
  require_note note_id

unfoldable pub get_note : ℕ → M NoteResponse
get_note note_id = do note ← require_note note_id; gets (note_response note)

-- The note with the payload's fields, after the flush.
abbrev pub edited : NoteFields → ℕ → Note → Note
edited fields now note = record note {
  title = strip fields.title;
  body = fields.body;
  starts_at = fields.starts_at;
  active = fields.active;
  updated_at = now;
  version = next_version note.version;
}

-- What follows the write of a note's own row.
unfoldable pub spread_edit : Note → Note → NoteUpdate → M NoteResponse
spread_edit note note' payload = do
  replace_tags note' payload.fields.tag_ids
  later ← utcnow
  reconcile_reminders note' payload.fields.reminder_offsets_minutes
      (not (note.starts_at == payload.fields.starts_at)) later
  set_exception note' payload.starts_in_utc none
  add_event "note.updated" note'.id note'.version note'.series_id
  gets (note_response note')

-- Writes the payload to a note that may be edited.
unfoldable pub edit_note : Note → NoteUpdate → M NoteResponse
edit_note note payload = do
  raise_if (is_empty (strip payload.fields.title)) blank_title
  now ← utcnow
  let note' = edited payload.fields now note
  write_note note.id (λ _. note')
  spread_edit note note' payload

-- A note in the trash is not edited.
unfoldable pub check_in_place : Note → M (Unit {0})
check_in_place note s =
    raise_if (is_some note.deleted_at)
      (api_error 409 "note_deleted" "Restore the note before editing" []
        (some (Current.note (note_response note s))))
      s

unfoldable pub update_note : ℕ → NoteUpdate → M NoteResponse
update_note note_id payload = do
  note ← locked_note_and_series note_id payload.expected_series_version
  check_note_version note payload.expected_version
  check_in_place note
  edit_note note payload

abbrev pub trashed : ℕ → ℕ → Note → Note
trashed deleted_at now note = record note {
  deleted_at = some deleted_at;
  updated_at = now;
  version = next_version note.version;
}

-- Moves the note to the trash, once.
unfoldable pub trash_note : Note → M (Unit {0})
trash_note note = do
  deleted_at ← utcnow
  updated_at ← utcnow
  let note' = trashed deleted_at updated_at note
  write_note note.id (λ _. note')
  offsets ← gets (offsets_of note.id)
  now ← utcnow
  reconcile_reminders note' offsets false now
  set_exception note' true (some true)
  add_event "note.deleted" note'.id note'.version note'.series_id

unfoldable pub delete_note : ℕ → ℕ → Option ℕ → M (Unit {0})
delete_note note_id expected_version expected_series_version = do
  note ← locked_note_and_series note_id expected_series_version
  check_note_version note expected_version
  when (is_none note.deleted_at) (trash_note note)

abbrev pub untrashed : ℕ → Note → Note
untrashed now note = record note {
  deleted_at = none;
  updated_at = now;
  version = next_version note.version;
}

unfoldable pub untrash_note : Note → M NoteResponse
untrash_note note = do
  λ s.
      raise_if (is_none note.deleted_at)
        (api_error 409 "note_not_deleted" "Note is not in trash" []
          (some (Current.note (note_response note s))))
        s
  checked_at ← utcnow
  cutoff ← lift (minus checked_at (30 * day))
  raise_if (opt_le note.deleted_at cutoff)
      (api_error 410 "retention_expired" "The note can no longer be restored" [] none)
  updated_at ← utcnow
  let note' = untrashed updated_at note
  write_note note.id (λ _. note')
  offsets ← gets (offsets_of note.id)
  now ← utcnow
  reconcile_reminders note' offsets false now
  set_exception note' true (some false)
  add_event "note.restored" note'.id note'.version note'.series_id
  gets (note_response note')

-- `restore_note` of a note outside any recurring trash action.
unfoldable pub restore_single : ℕ → RestoreRequest → M NoteResponse
restore_single note_id payload = do
  note ← locked_note_and_series note_id payload.expected_series_version
  check_note_version note payload.expected_version
  untrash_note note
