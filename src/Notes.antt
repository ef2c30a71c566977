-- ===== src/Notes.antt =====
-- The rows of a note behind the handlers: backend/app/domain/notes.py (all but the reminders) and
-- `add_event` of backend/app/domain/common.py.
--
-- A sequential transaction holds its locks trivially, so `lock=True` and `with_for_update` read as the plain
-- query does.
pub mod TagSet
mod Tests
use mad_devs_note_taker.Base.{
  ℕ, Bool, true, false, ◌&&◌, ◌||◌, not, ltb, leb, ◌==◌, Option, some, none, is_none, List, [], ◌∷◌,
  ◌++◌, select, any, map, contains, String,
}
use mad_devs_note_taker.Base.Tables.{update_where, order_by}
use mad_devs_note_taker.Models.{
  Db, next_version, Note, Tag, NoteTag, ReminderRule, RecurrenceSeries,
}
use mad_devs_note_taker.Schemas.{TagResponse, NoteResponse, distinct}
use mad_devs_note_taker.Session.{
  found_or, M, ◌>>=◌, ◌>>◌, pure, raise, raise_if, lift, gets, modify, api_error, one, one_or_none,
  uuid4, utcnow, Current,
}

unfoldable pub add_event : String → ℕ → ℕ → Option ℕ → M (Unit {0})
add_event event_type entity_id version series_id = do
  event_id ← uuid4
  occurred_at ← utcnow
  modify (λ s. record s {
    outbox =
        s.outbox
        ++ record {
          id = event_id;
          event_type = event_type;
          entity_id = entity_id;
          payload = record {
            event_id = event_id;
            type = event_type;
            occurred_at = occurred_at;
            entity_id = entity_id;
            notification_id = none;
            version = version;
            series_id = series_id;
          };
          created_at = s.server_now;
          published_at = none;
          attempts = 0;
          next_attempt_at = none;
          error_code = none;
        }
          ∷ [];
  })

-- The data base's order of texts, by code points.
abbrev pub text_leb : List ℕ → List ℕ → Bool
text_leb [] t = true
text_leb (a ∷ s) [] = false
text_leb (a ∷ s) (b ∷ t) = ltb a b || ((a == b) && text_leb s t)

abbrev pub by_name : Tag → Tag → Bool
by_name a b = not (text_leb b.name a.name) || (text_leb a.name b.name && leb a.id b.id)

abbrev pub tag_response : Tag → TagResponse
tag_response tag = record { id = tag.id; name = tag.name; color = tag.color; version = tag.version }

unfoldable pub tags_of : Note → Db → List TagResponse
tags_of note s = map tag_response (
    order_by by_name (
      select
        (λ (t : Tag).
          any (λ (l : NoteTag). (l.note_id == note.id) && (l.tag_id == t.id)) s.note_tags)
        s.tags))

-- `select_reminder_offsets`
abbrev pub offsets_of : ℕ → Db → List ℕ
offsets_of note_id s =
    map (λ (r : ReminderRule). r.offset_minutes)
      (select (λ (r : ReminderRule). (r.note_id == note_id) && r.enabled) s.rules)

unfoldable pub note_response : Note → Db → NoteResponse
unfolding tags_of
note_response note s = record {
  id = note.id;
  title = note.title;
  body = note.body;
  starts_at = note.starts_at;
  active = note.active;
  tags = tags_of note s;
  reminder_offsets_minutes = order_by leb (offsets_of note.id s);
  version = note.version;
  updated_at = note.updated_at;
  deleted_at = note.deleted_at;
  series_id = note.series_id;
  recurrence_key = note.recurrence_key;
}

unfoldable pub notes_response : List Note → Db → List NoteResponse
unfolding note_response
notes_response notes s = map (λ n. note_response n s) notes

unfoldable pub require_note : ℕ → M Note
require_note note_id = do
  row ← λ s.
      lift
        (one_or_none (
          select (λ (n : Note). (n.id == note_id) && is_none n.purged_at && is_none n.superseded_at)
            s.notes))
        s
  found_or (raise (api_error 404 "not_found" "Note not found" [] none)) row

unfoldable pub check_note_version : Note → ℕ → M (Unit {0})
check_note_version note expected s =
    raise_if (not (note.version == expected))
      (api_error 409 "version_conflict" "The note changed" []
        (some (Current.note (note_response note s))))
      s

unfoldable pub validate_tags : List ℕ → M (Unit {0})
validate_tags tag_ids s =
    raise_if (any (λ (i : ℕ). not (any (λ (t : Tag). t.id == i) s.tags)) tag_ids)
      (api_error 422 "invalid_tag" "One or more tags no longer exist" ("tag_ids" ∷ []) none) s

abbrev pub tag_links : ℕ → List ℕ → List NoteTag
tag_links note_id = map (λ (t : ℕ). record { note_id = note_id; tag_id = t })

-- The links that go are those not desired, and those that come were not there.
unfoldable pub replace_tags : Note → List ℕ → M (Unit {0})
unfolding validate_tags
replace_tags note tag_ids = do
  validate_tags tag_ids
  existing ← gets (λ s.
      map (λ (l : NoteTag). l.tag_id) (select (λ (l : NoteTag). l.note_id == note.id) s.note_tags))
  modify (λ s. record s {
    note_tags =
        select
          (λ (l : NoteTag). not (
            (l.note_id == note.id)
            && contains l.tag_id existing
            && not (contains l.tag_id tag_ids)))
          s.note_tags
        ++ tag_links note.id (select (λ (t : ℕ). not (contains t existing)) (distinct tag_ids));
  })

unfoldable pub write_note : ℕ → (Note → Note) → M (Unit {0})
write_note id f =
    modify (λ s. record s { notes = update_where (λ (n : Note). n.id == id) f s.notes })

unfoldable pub write_series : ℕ → (RecurrenceSeries → RecurrenceSeries) → M (Unit {0})
write_series id f = modify (λ s. record s {
  recurrence_series = update_where (λ (r : RecurrenceSeries). r.id == id) f s.recurrence_series;
})

-- A flush of the series after `updated_at` was set.
abbrev pub touch_series : ℕ → RecurrenceSeries → RecurrenceSeries
touch_series now r = record r { updated_at = now; version = next_version r.version }

unfoldable pub lock_series_by : Option ℕ → ℕ → M (Unit {0})
lock_series_by none id = raise (
    api_error 422 "validation_error" "Recurring note mutation requires expected_series_version"
      ("expected_series_version" ∷ []) none)
lock_series_by (some expected) id = do
  series ← λ s. lift (one (select (λ (r : RecurrenceSeries). r.id == id) s.recurrence_series)) s
  raise_if (not (series.version == expected)) (
      api_error 409 "version_conflict" "The recurrence series changed" []
        (some (Current.versioned series.id series.version)))
  now ← utcnow
  write_series series.id (touch_series now)

unfoldable pub lock_series : Option ℕ → Option ℕ → M (Unit {0})
unfolding lock_series_by
lock_series none expected_series_version = pure tt
lock_series (some id) expected_series_version = lock_series_by expected_series_version id
