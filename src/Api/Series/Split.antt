-- ===== src/Api/Series/Split.antt =====
-- `split_series` of backend/app/api/router.py: the occurrences from a chosen one on become a series of
-- their own, under a new schedule.
use mad_devs_note_taker.Base.{
  ℕ, false, ◌&&◌, not, if◌then◌else◌, leb, ◌==◌, opt_eq, Option, some, none, is_none, is_some, List,
  [], ◌∷◌, ◌++◌, select, min, any, contains, find_first,
}
use mathlib.Core.List.{reverse}
use mad_devs_note_taker.Base.Text.{strip, is_empty}
use mad_devs_note_taker.Calendar.{LocalDate, previous_day}
use mad_devs_note_taker.Models.{
  Text, next_version, RecurrenceSeries, Note, NoteTag, OccurrenceException,
}
use mad_devs_note_taker.Recurrence.{Zones, Occurrence, max_occurrences}
use mad_devs_note_taker.Schemas.{SeriesFields, SeriesSplit, SeriesResponse}
use mad_devs_note_taker.Base.Results.{Result, ok, err}
use mad_devs_note_taker.Base.{String}
use mad_devs_note_taker.Session.{
  M, when, ◌>>=◌, ◌>>◌, pure, raise_if, lift, gets, modify, for_each, uuid4, utcnow, Error,
  overflow_error, zone_not_found,
}
use mad_devs_note_taker.Reminders.{reconcile_reminders}
use mad_devs_note_taker.Notes.{
  add_event, validate_tags, tag_links, write_note, write_series, offsets_of,
}
use mad_devs_note_taker.Api.NoteHandlers.{new_note, blank_title}
use mad_devs_note_taker.Api.Series.{
  expanded_or, expand_fields, invalid_recurrence, series_row, add_series, series_response_data,
  locked_series,
}
use mad_devs_note_taker.Api.Series.Checks.{
  check_leaf, select_occurrence, affected_notes, check_affected, check_generated,
}

abbrev pub end_or : Option LocalDate → Result Error LocalDate
end_or none = err overflow_error
end_or (some d) = ok d

-- The day before the split, in the old series' zone.
abbrev pub day_before : Zones → String → ℕ → Result Error LocalDate
day_before zones timezone key =
    if not (zones.zone_info timezone)
    then err zone_not_found
    else end_or (previous_day (zones.local_date timezone key))

abbrev pub closed : ℕ → LocalDate → ℕ → RecurrenceSeries → RecurrenceSeries
closed now end_date key r = record r {
  end_date = end_date;
  split_boundary = some key;
  updated_at = now;
  version = next_version r.version;
}

-- An occurrence that the new schedule keeps.
abbrev pub moved : ℕ → Text → SeriesFields → ℕ → ℕ → Note → Note
moved successor_id title fields now instant n = record n {
  series_id = some successor_id;
  title = title;
  body = fields.note.body;
  starts_at = instant;
  active = fields.note.active;
  deleted_at = none;
  series_trashed_at = none;
  superseded_at = none;
  updated_at = now;
  version = next_version n.version;
}

abbrev pub clear_tags : ℕ → M (Unit {0})
clear_tags note_id =
    modify (λ s. record s {
      note_tags = select (λ (l : NoteTag). not (l.note_id == note_id)) s.note_tags;
    })

abbrev pub add_tags : ℕ → List ℕ → M (Unit {0})
add_tags note_id tag_ids =
    modify (λ s. record s { note_tags = s.note_tags ++ tag_links note_id tag_ids })

-- One generated occurrence: a new note, or the affected one at its instant, moved to the successor.
-- The result is what the round adds to `kept`.
unfoldable pub split_occurrence :
    ℕ → Text → SeriesFields → ℕ → Occurrence → Option Note → M (List ℕ)
split_occurrence successor_id title fields now o none = do
  id ← uuid4
  note ← gets (λ s.
      new_note id title (record fields.note { starts_at = o.instant }) (some successor_id)
        (some o.instant) s.server_now)
  modify (λ s. record s { notes = s.notes ++ note ∷ [] })
  add_tags id fields.note.tag_ids
  reconcile_reminders note fields.note.reminder_offsets_minutes false now
  pure []
split_occurrence successor_id title fields now o (some note) = do
  let note' = moved successor_id title fields now o.instant note
  write_note note.id (λ _. note')
  clear_tags note.id
  add_tags note.id fields.note.tag_ids
  reconcile_reminders note' fields.note.reminder_offsets_minutes (not (note.starts_at == o.instant))
      now
  pure (note.id ∷ [])

-- `by_key.get(instant)`: the last affected note at the instant that is not purged.
abbrev pub affected_at : List Note → ℕ → Option Note
affected_at affected instant =
    find_first (λ (n : Note). is_none n.purged_at && opt_eq n.recurrence_key instant)
      (reverse affected)

unfoldable pub split_occurrences :
    ℕ → Text → SeriesFields → ℕ → List Note → List Occurrence → M (List ℕ)
split_occurrences successor_id title fields now affected [] = pure []
split_occurrences successor_id title fields now affected (o ∷ os) = do
  kept ← split_occurrence successor_id title fields now o (affected_at affected o.instant)
  others ← split_occurrences successor_id title fields now affected os
  pure (kept ++ others)

abbrev pub superseded : ℕ → Note → Note
superseded now n = record n {
  deleted_at = some now;
  superseded_at = some now;
  updated_at = now;
  version = next_version n.version;
}

-- An affected note that the new schedule does not keep; the purged ones stay.
unfoldable pub supersede : ℕ → List ℕ → Note → M (Unit {0})
supersede now kept note = when (not (contains note.id kept) && is_none note.purged_at) (do
  write_note note.id (λ _. superseded now note)
  offsets ← gets (offsets_of note.id)
  reconcile_reminders (superseded now note) offsets false now)

-- The exceptions from the split on go, but for those of purged occurrences.
unfoldable pub drop_exceptions : ℕ → ℕ → List Note → M (Unit {0})
drop_exceptions series_id key affected = modify (λ s. record s {
  exceptions =
      select
        (λ (x : OccurrenceException). not (
          (x.series_id == series_id)
          && leb key x.recurrence_key
          && not (
              any (λ (n : Note). is_some n.purged_at && opt_eq n.recurrence_key x.recurrence_key)
                affected)))
        s.exceptions;
})

-- The successor takes over from the selected occurrence on.
unfoldable pub take_over :
    Zones → RecurrenceSeries → SeriesSplit → ℕ → List Note → List Occurrence → M RecurrenceSeries
take_over zones old payload now affected generated = do
  let title = strip payload.fields.note.title
  id ← uuid4
  successor ←
      gets (λ s. series_row id old.lineage_id (some old.id) title payload.fields s.server_now)
  add_series successor payload.fields.note
  end_date ← lift (day_before zones old.timezone payload.recurrence_key)
  write_series old.id (closed now end_date payload.recurrence_key)
  kept ← split_occurrences successor.id title payload.fields now affected generated
  for_each affected (supersede now kept)
  drop_exceptions old.id payload.recurrence_key affected
  pure successor

-- The rest of the split, once the affected notes are known to be in the future.
unfoldable pub split_from :
    Zones → (Text → Text) → ℕ → RecurrenceSeries → SeriesSplit → ℕ → List Note → M SeriesResponse
split_from zones lower max_occurrences_setting old payload now affected = do
  generated ← lift (
      expanded_or (λ e. invalid_recurrence ("end_date" ∷ []))
        (expand_fields zones payload.fields (min max_occurrences_setting max_occurrences)))
  check_generated old payload now generated
  validate_tags payload.fields.note.tag_ids
  raise_if (is_empty (strip payload.fields.note.title)) blank_title
  successor ← take_over zones old payload now affected generated
  add_event "series.updated" successor.id successor.version (some successor.id)
  series_response_data lower successor

unfoldable pub split_series : Zones → (Text → Text) → ℕ → ℕ → SeriesSplit → M SeriesResponse
split_series zones lower max_occurrences_setting series_id payload = do
  old ← locked_series series_id none
  check_leaf old payload.series_version
  selected ← select_occurrence old payload
  affected ← gets (affected_notes old payload.recurrence_key)
  now ← utcnow
  check_affected now affected
  split_from zones lower max_occurrences_setting old payload now affected
