-- ===== src/Api/Series/Create.antt =====
-- `create_series_rows` of backend/app/domain/recurrence.py and `create_series` of
-- backend/app/api/router.py: a series with all its occurrences.
use mad_devs_note_taker.Base.{
  ℕ, Bool, true, not, if◌then◌else◌, leb, some, none, [], ◌∷◌, ◌++◌, min,
}
use mad_devs_note_taker.Base.Text.{strip, is_empty}
use mad_devs_note_taker.Models.{Text, RecurrenceSeries, ReminderDelivery, DeliveryState}
use mad_devs_note_taker.Recurrence.{Zones, Occurrence, max_occurrences}
use mad_devs_note_taker.Schemas.{SeriesFields, SeriesResponse}
use mad_devs_note_taker.Session.{
  M, ◌>>=◌, ◌>>◌, pure, raise_if, lift, gets, modify, for_each, uuid4, utcnow,
}
use mad_devs_note_taker.Reminders.{due_at, ended_at}
use mad_devs_note_taker.Notes.{add_event, validate_tags, tag_links}
use mad_devs_note_taker.Api.NoteHandlers.{new_note, blank_title}
use mad_devs_note_taker.Api.Series.{
  expanded_or, expand_fields, invalid_recurrence, blamed_field, check_first, series_row, add_series,
  series_response_data,
}

abbrev pub first_state : Bool → ℕ → ℕ → DeliveryState
first_state active deadline now =
    if not active
    then DeliveryState.cancelled
    else if leb deadline now
    then DeliveryState.missed
    else DeliveryState.pending

abbrev pub first_delivery : ℕ → ℕ → ℕ → Bool → ℕ → ReminderDelivery
first_delivery id rule_id deadline active now = record {
  id = id;
  reminder_rule_id = rule_id;
  cycle_number = 1;
  due_at = deadline;
  state = first_state active deadline now;
  claim_token = none;
  claim_expires_at = none;
  authorized_at = none;
  recipient_snapshot = none;
  content_snapshot = none;
  result_at = ended_at (first_state active deadline now) now;
  error_code = none;
}

-- A rule of a new occurrence, with its first delivery.
unfoldable pub create_reminder : ℕ → ℕ → Bool → ℕ → ℕ → M (Unit {0})
create_reminder note_id instant active now offset = do
  rule_id ← uuid4
  deadline ← lift (due_at instant offset)
  id ← uuid4
  modify (λ s. record s {
    rules =
        s.rules
        ++ record {
          id = rule_id;
          note_id = note_id;
          offset_minutes = offset;
          enabled = true;
          current_cycle_number = 1;
        }
          ∷ [];
    deliveries = s.deliveries ++ first_delivery id rule_id deadline active now ∷ [];
  })

-- One occurrence: its note, the note's tags and its reminders.
unfoldable pub create_occurrence : ℕ → Text → SeriesFields → ℕ → Occurrence → M (Unit {0})
create_occurrence series_id title payload now o = do
  note_id ← uuid4
  modify (λ s. record s {
    notes =
        s.notes
        ++ new_note note_id title (record payload.note { starts_at = o.instant }) (some series_id)
            (some o.instant) s.server_now
          ∷ [];
    note_tags = s.note_tags ++ tag_links note_id payload.note.tag_ids;
  })
  for_each payload.note.reminder_offsets_minutes
      (create_reminder note_id o.instant payload.note.active now)

unfoldable pub create_series_rows : Zones → SeriesFields → ℕ → ℕ → M RecurrenceSeries
create_series_rows zones payload now limit = do
  validate_tags payload.note.tag_ids
  occurrences ← lift (
      expanded_or (λ e. invalid_recurrence (blamed_field e ∷ []))
        (expand_fields zones payload (min limit max_occurrences)))
  check_first ("local_start" ∷ []) payload.note.starts_at occurrences
  raise_if (is_empty (strip payload.note.title)) blank_title
  series_id ← uuid4
  series ←
      gets
        (λ s. series_row series_id series_id none (strip payload.note.title) payload s.server_now)
  add_series series payload.note
  for_each occurrences (create_occurrence series_id (strip payload.note.title) payload now)
  pure series

unfoldable pub create_series : Zones → (Text → Text) → ℕ → SeriesFields → M SeriesResponse
create_series zones lower max_occurrences_setting payload = do
  now ← utcnow
  series ← create_series_rows zones payload now max_occurrences_setting
  add_event "series.updated" series.id series.version (some series.id)
  series_response_data lower series
