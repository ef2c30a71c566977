-- ===== src/Api/Tags.antt =====
-- Tags: `list_tags`, `create_tag`, `update_tag` and `delete_tag`.
pub mod Names
mod Tests
use mad_devs_note_taker.Base.{
  ℕ, Bool, ◌&&◌, not, leb, ◌==◌, some, none, is_some, List, [], ◌∷◌, ◌++◌, select, any, map,
}
use mad_devs_note_taker.Base.Tables.{update_where, order_by}
use mad_devs_note_taker.Base.Text.{text_eq}
use mad_devs_note_taker.Models.{
  Db, Text, next_version, Tag, Note, NoteTag, SeriesTag, RecurrenceSeries,
}
use mad_devs_note_taker.Schemas.{TagResponse, TagCreate, TagUpdate}
use mad_devs_note_taker.Session.{
  found_or, M, ◌>>=◌, ◌>>◌, pure, raise, raise_if, lift, gets, modify, for_each, api_error,
  one_or_none, uuid4, utcnow, Current, Error,
}
use mad_devs_note_taker.Notes.{add_event, tag_response, by_name, touch_series}
use mad_devs_note_taker.Api.Validation.{validate_color, normalize_name}

unfoldable pub list_tags : Db → List TagResponse
list_tags s = map tag_response (order_by by_name s.tags)

abbrev pub name_conflict : Error
name_conflict =
    api_error 409 "tag_name_conflict" "A tag with this name already exists" ("name" ∷ []) none

abbrev pub is_named : Text → Tag → Bool
is_named normalized t = text_eq t.normalized_name normalized

unfoldable pub create_tag : (Text → Text) → TagCreate → M TagResponse
create_tag casefold payload = do
  names ← lift (normalize_name casefold payload.name)
  duplicate ← λ s. lift (one_or_none (select (is_named names.1) s.tags)) s
  raise_if (is_some duplicate) name_conflict
  color ← lift (validate_color payload.color)
  id ← uuid4
  now ← gets (λ s. s.server_now)
  let tag : Tag = record {
    id = id;
    name = names.0;
    normalized_name = names.1;
    color = color;
    updated_at = now;
    version = 1;
  }
  modify (λ s. record s { tags = s.tags ++ tag ∷ [] })
  add_event "tag.created" id 1 none
  pure (tag_response tag)

unfoldable pub find_tag : ℕ → M Tag
find_tag tag_id = do
  row ← λ s. lift (one_or_none (select (λ (t : Tag). t.id == tag_id) s.tags)) s
  found_or (raise (api_error 404 "not_found" "Tag not found" [] none)) row

abbrev pub check_tag_version : Tag → ℕ → M (Unit {0})
check_tag_version tag expected =
    raise_if (not (tag.version == expected)) (
      api_error 409 "version_conflict" "The tag changed" [] (some (Current.tag (tag_response tag))))

unfoldable pub update_tag : (Text → Text) → ℕ → TagUpdate → M TagResponse
update_tag casefold tag_id payload = do
  tag ← find_tag tag_id
  check_tag_version tag payload.expected_version
  names ← lift (normalize_name casefold payload.name)
  duplicate ← λ s.
      lift (one_or_none (select (λ (t : Tag). is_named names.1 t && not (t.id == tag.id)) s.tags)) s
  raise_if (is_some duplicate) name_conflict
  color ← lift (validate_color payload.color)
  now ← utcnow
  let updated = record tag {
    name = names.0;
    normalized_name = names.1;
    color = color;
    updated_at = now;
    version = next_version tag.version;
  }
  modify (λ s. record s { tags = update_where (λ (t : Tag). t.id == tag.id) (λ _. updated) s.tags })
  add_event "tag.updated" updated.id updated.version none
  pure (tag_response updated)

abbrev pub has_tag : ℕ → Db → Note → Bool
has_tag tag_id s n = any (λ (l : NoteTag). (l.tag_id == tag_id) && (l.note_id == n.id)) s.note_tags

abbrev pub series_has_tag : ℕ → Db → RecurrenceSeries → Bool
series_has_tag tag_id s r =
    any (λ (l : SeriesTag). (l.tag_id == tag_id) && (l.series_id == r.id)) s.series_tags

abbrev pub touch_note : ℕ → Note → Note
touch_note now n = record n { updated_at = now; version = next_version n.version }

unfoldable pub delete_tag : ℕ → ℕ → M (Unit {0})
unfolding find_tag
delete_tag tag_id expected_version = do
  tag ← find_tag tag_id
  check_tag_version tag expected_version
  before ← gets (λ s. s)
  series_rows ← gets (λ s.
      order_by (λ (a : RecurrenceSeries) (b : RecurrenceSeries). leb a.id b.id)
        (select (series_has_tag tag.id s) s.recurrence_series))
  now ← utcnow
  modify (λ s. record s {
    note_tags = select (λ (l : NoteTag). not (l.tag_id == tag.id)) s.note_tags;
    series_tags = select (λ (l : SeriesTag). not (l.tag_id == tag.id)) s.series_tags;
    recurrence_series =
        update_where (series_has_tag tag.id before) (touch_series now) s.recurrence_series;
    notes = update_where (has_tag tag.id before) (touch_note now) s.notes;
    tags = select (λ (t : Tag). not (t.id == tag.id)) s.tags;
  })
  for_each series_rows (λ (r : RecurrenceSeries).
      add_event "series.updated" r.id (next_version r.version) (some r.id))
  add_event "tag.deleted" tag.id tag.version none
