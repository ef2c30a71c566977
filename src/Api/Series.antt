-- ===== src/Api/Series.antt =====
-- Recurrence series: the stored rule text, `series_response_data` and `create_series_rows` of
-- backend/app/domain/recurrence.py, `_locked_series`, `create_series`, `get_series` and `preview_series` of
-- backend/app/api/router.py.
--
-- `lower` is `str.lower`; `max_occurrences_setting` is `settings.max_series_occurrences`.
pub mod RuleText
mod Tests
pub mod Create
pub mod Checks
pub mod Split
pub mod Trash
pub mod Restore
pub mod Untouched
pub mod Guards
use mad_devs_note_taker.Base.{
  ℕ, ◌+◌, Bool, true, false, not, if◌then◌else◌, leb, ◌==◌, Option, some, none, is_none, List, [],
  ◌∷◌, ◌++◌, String, select, map, length, drop, min, ◌&&◌, opt_eq,
}
use mad_devs_note_taker.Base.Tables.{order_by}
use mad_devs_note_taker.Base.Text.{codes, partition, text_eq, starts_with, strip, is_empty}
use mad_devs_note_taker.Base.Results.{Result, ok, err}
use mad_devs_note_taker.Models.{
  Db, Text, RecurrenceSeries, SeriesTag, SeriesReminderTemplate, Note, DeliveryState,
}
use mad_devs_note_taker.Recurrence.{
  Zones, Frequency, daily, weekly, monthly, Occurrence, ExpandError, expand_occurrences,
  end_before_start, too_many, max_occurrences,
}
use mad_devs_note_taker.Schemas.{
  NoteFields, SeriesFields, SeriesResponse, RecurrencePreviewResponse,
}
use mad_devs_note_taker.Session.{
  found_or, M, ◌>>=◌, ◌>>◌, pure, raise, raise_if, lift, gets, modify, for_each, api_error,
  one_or_none, uuid4, Error, value_error, Current, utcnow,
}
use mad_devs_note_taker.Reminders.{due_at, ended_at}
use mad_devs_note_taker.Notes.{add_event, validate_tags, tag_links}
use mad_devs_note_taker.Api.NoteHandlers.{new_note, blank_title}

unfoldable pub normalized_rrule : Frequency → Text
normalized_rrule daily = codes "FREQ=DAILY;INTERVAL=1"
normalized_rrule weekly = codes "FREQ=WEEKLY;INTERVAL=1"
normalized_rrule monthly = codes "FREQ=MONTHLY;INTERVAL=1"

-- str.removeprefix("FREQ=")
abbrev pub without_freq : Text → Text
without_freq s = if starts_with s (codes "FREQ=") then drop 5 s else s

unfoldable pub frequency_from_rrule : (Text → Text) → Text → Result Error Frequency
frequency_from_rrule lower value =
    let result = lower (without_freq (partition 59 value).0) in
    if text_eq result (codes "daily")
    then ok daily
    else if text_eq result (codes "weekly")
    then ok weekly
    else if text_eq result (codes "monthly")
    then ok monthly
    else err value_error

unfoldable pub series_response_data : (Text → Text) → RecurrenceSeries → M SeriesResponse
series_response_data lower series = do
  frequency ← lift (frequency_from_rrule lower series.rrule)
  gets (λ s. record {
    id = series.id;
    lineage_id = series.lineage_id;
    predecessor_id = series.predecessor_id;
    local_start = series.local_start;
    timezone = series.timezone;
    frequency = frequency;
    end_date = series.end_date;
    split_boundary = series.split_boundary;
    title = series.template_title;
    body = series.template_body;
    active = series.template_active;
    tag_ids =
        map (λ (t : SeriesTag). t.tag_id)
          (select (λ (t : SeriesTag). t.series_id == series.id) s.series_tags);
    reminder_offsets_minutes = order_by leb (
        map (λ (t : SeriesReminderTemplate). t.offset_minutes)
          (select (λ (t : SeriesReminderTemplate). t.series_id == series.id) s.templates));
    version = series.version;
    updated_at = series.updated_at;
    occurrence_count =
        length
          (select (λ (n : Note). opt_eq n.series_id series.id && is_none n.superseded_at) s.notes);
  })

abbrev pub invalid_recurrence : List String → Error
invalid_recurrence fields = api_error 422 "invalid_recurrence" "Invalid recurrence" fields none

abbrev pub no_occurrences : List String → Error
no_occurrences fields =
    api_error 422 "invalid_recurrence" "Series has no valid occurrences" fields none

abbrev pub conflicting_start : Error
conflicting_start =
    api_error 422 "invalid_recurrence" "starts_at conflicts with local_start" ("starts_at" ∷ [])
      none

-- Which field `create_series_rows` blames: the message has "end_date" or "exceeds" in it, or not.
unfoldable pub blamed_field : ExpandError → String
blamed_field end_before_start = "end_date"
blamed_field too_many = "end_date"
blamed_field _ = "timezone"

-- The occurrences of a request, with the errors of a failed expansion turned into an ApiError.
abbrev pub expanded_or :
    (ExpandError → Error) → Result ExpandError (List Occurrence) → Result Error (List Occurrence)
expanded_or raised (ok out) = ok out
expanded_or raised (err e) = err (raised e)

abbrev pub expand_fields : Zones → SeriesFields → ℕ → Result ExpandError (List Occurrence)
expand_fields zones payload limit =
    expand_occurrences zones payload.local_start_aware payload.local_start payload.timezone
      payload.frequency payload.end_date limit

-- A series' first instant is the one that the request names.
unfoldable pub check_first : List String → ℕ → List Occurrence → M (Unit {0})
check_first fields starts_at [] = raise (no_occurrences fields)
check_first fields starts_at (o ∷ os) = raise_if (not (starts_at == o.instant)) conflicting_start

abbrev pub series_row : ℕ → ℕ → Option ℕ → Text → SeriesFields → ℕ → RecurrenceSeries
series_row id lineage_id predecessor_id title payload server_now = record {
  id = id;
  lineage_id = lineage_id;
  predecessor_id = predecessor_id;
  local_start = payload.local_start;
  timezone = payload.timezone;
  rrule = normalized_rrule payload.frequency;
  end_date = payload.end_date;
  split_boundary = none;
  template_title = title;
  template_body = payload.note.body;
  template_active = payload.note.active;
  purged_at = none;
  updated_at = server_now;
  version = 1;
}

-- The row of a series with its tags and its reminder templates.
unfoldable pub add_series : RecurrenceSeries → NoteFields → M (Unit {0})
add_series series fields = modify (λ s. record s {
  recurrence_series = s.recurrence_series ++ series ∷ [];
  series_tags =
      s.series_tags ++ map (λ (t : ℕ). record { series_id = series.id; tag_id = t }) fields.tag_ids;
  templates =
      s.templates
      ++ map (λ (o : ℕ). record { series_id = series.id; offset_minutes = o })
          fields.reminder_offsets_minutes;
})

-- `expected is not None and version != expected`
abbrev pub differs_from : ℕ → Option ℕ → Bool
differs_from version none = false
differs_from version (some expected) = not (version == expected)

unfoldable pub locked_series : ℕ → Option ℕ → M RecurrenceSeries
locked_series series_id expected = do
  row ← λ s.
      lift
        (one_or_none (
          select (λ (r : RecurrenceSeries). (r.id == series_id) && is_none r.purged_at)
            s.recurrence_series))
        s
  series ← found_or (raise (api_error 404 "not_found" "Recurrence series not found" [] none)) row
  raise_if (differs_from series.version expected) (
      api_error 409 "version_conflict" "The recurrence series changed" []
        (some (Current.versioned series.id series.version)))
  pure series

unfoldable pub get_series : (Text → Text) → ℕ → M SeriesResponse
get_series lower series_id = do
  series ← locked_series series_id none
  series_response_data lower series

abbrev pub preview_of : List Occurrence → M RecurrencePreviewResponse
preview_of [] = raise (no_occurrences [])
preview_of (o ∷ os) = pure (record { starts_at = o.instant; occurrence_count = length (o ∷ os) })

unfoldable pub preview_series : Zones → ℕ → SeriesFields → M RecurrencePreviewResponse
preview_series zones max_occurrences_setting payload = do
  occurrences ← lift (
      expanded_or (λ e. invalid_recurrence [])
        (expand_fields zones payload (min max_occurrences_setting max_occurrences)))
  preview_of occurrences
