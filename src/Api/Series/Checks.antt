-- ===== src/Api/Series/Checks.antt =====
-- What `split_series` of backend/app/api/router.py refuses, in the order in which it looks.
use mad_devs_note_taker.Base.{
  ℕ, Bool, true, ◌&&◌, ◌||◌, not, ltb, leb, ◌==◌, opt_eq, opt_ge, opt_lt, Option, some, none,
  is_none, is_some, List, [], select, map, any, contains, find_first, is_nil,
}
use mad_devs_note_taker.Base.Tables.{order_by}
use mad_devs_note_taker.Models.{Db, RecurrenceSeries, Note}
use mad_devs_note_taker.Recurrence.{Occurrence}
use mad_devs_note_taker.Schemas.{SeriesSplit}
use mad_devs_note_taker.Session.{
  found_or, M, ◌>>=◌, ◌>>◌, pure, raise, raise_if, lift, gets, api_error, one_or_none, Current,
}
use mad_devs_note_taker.Api.Series.{check_first}

abbrev pub is_successor : ℕ → RecurrenceSeries → Bool
is_successor id r = opt_eq r.predecessor_id id

abbrev pub successor_of : ℕ → Db → Option RecurrenceSeries
successor_of id s =
    find_first (λ (r : RecurrenceSeries). true)
      (order_by (λ (a : RecurrenceSeries) (b : RecurrenceSeries). leb a.id b.id)
        (select (is_successor id) s.recurrence_series))

abbrev pub id_of : Option RecurrenceSeries → Option ℕ
id_of none = none
id_of (some r) = some r.id

-- Only a series that was not split before can be, and only in the version that the client saw.
unfoldable pub check_leaf : RecurrenceSeries → ℕ → M (Unit {0})
check_leaf old series_version = do
  successor ← gets (successor_of old.id)
  raise_if (is_some old.split_boundary || is_some (id_of successor)) (
      api_error 409 "series_not_leaf" "Only the open leaf recurrence series can be split" []
        (some (Current.leaf old.id old.split_boundary (id_of successor))))
  raise_if (not (old.version == series_version)) (
      api_error 409 "version_conflict" "The recurrence series changed" []
        (some (Current.versioned old.id old.version)))

-- The occurrence of the split, in the version that the client saw.
unfoldable pub select_occurrence : RecurrenceSeries → SeriesSplit → M Note
select_occurrence old payload = do
  row ← λ s.
      lift
        (one_or_none (
          select
            (λ (n : Note).
              opt_eq n.series_id old.id
              && opt_eq n.recurrence_key payload.recurrence_key
              && is_none n.superseded_at
              && is_none n.purged_at)
            s.notes))
        s
  selected ←
      found_or
        (raise (api_error 404 "occurrence_not_found" "Selected occurrence not found" [] none)) row
  raise_if (not (selected.version == payload.expected_occurrence_version)) (
      api_error 409 "version_conflict" "The selected occurrence changed" []
        (some (Current.versioned selected.id selected.version)))
  pure selected

abbrev pub by_id : Note → Note → Bool
by_id a b = leb a.id b.id

-- The occurrences from the selected one on.
abbrev pub affected_notes : RecurrenceSeries → ℕ → Db → List Note
affected_notes old key s = order_by by_id (
    select
      (λ (n : Note).
        opt_eq n.series_id old.id && opt_ge n.recurrence_key key && is_none n.superseded_at)
      s.notes)

abbrev pub started : ℕ → Note → Bool
started now n = leb n.starts_at now

-- None of them is in the trash with its series, and none has started.
unfoldable pub check_affected : ℕ → List Note → M (Unit {0})
check_affected now affected = do
  raise_if
      (any
        (λ (n : Note). is_some n.current_recurring_trash_action_id || is_some n.series_trashed_at)
        affected)
      (api_error 409 "trash_action_overlap"
        "Restore the affected Trash entries before splitting the series" [] none)
  raise_if (any (started now) affected) (
      api_error 409 "historical_replacement"
        "A future-series change cannot rewrite an occurrence that has already started" []
        (some (Current.note_ids (map (λ (n : Note). n.id) (select (started now) affected)))))

abbrev pub passed : ℕ → Occurrence → Bool
passed now o = leb o.instant now

abbrev pub instants : List Occurrence → List ℕ
instants = map (λ (o : Occurrence). o.instant)

-- Occurrences of the lineage before the split that a generated one would repeat.
abbrev pub is_colliding : RecurrenceSeries → ℕ → List ℕ → Db → Note → Bool
is_colliding old key keys s n =
    any (λ (r : RecurrenceSeries). opt_eq n.series_id r.id && (r.lineage_id == old.lineage_id))
      s.recurrence_series
    && opt_lt n.recurrence_key key
    && (any (opt_eq n.recurrence_key) keys || contains n.starts_at keys)
    && is_none n.superseded_at

abbrev pub key_or : Option ℕ → ℕ
key_or none = 0
key_or (some k) = k

abbrev pub by_key : Note → Note → Bool
by_key a b =
    ltb (key_or a.recurrence_key) (key_or b.recurrence_key)
    || ((key_or a.recurrence_key == key_or b.recurrence_key) && leb a.id b.id)

-- The new schedule starts where the request says, after now, and repeats no earlier occurrence.
unfoldable pub check_generated : RecurrenceSeries → SeriesSplit → ℕ → List Occurrence → M (Unit {0})
check_generated old payload now generated = do
  check_first [] payload.fields.note.starts_at generated
  raise_if (any (passed now) generated) (
      api_error 409 "historical_replacement"
        "A future-series change cannot create an occurrence that has already started" []
        (some (Current.recurrence_keys (instants (select (passed now) generated)))))
  colliding ← gets (λ s.
      order_by by_key
        (select (is_colliding old payload.recurrence_key (instants generated) s) s.notes))
  raise_if (not (is_nil colliding)) (
      api_error 409 "recurrence_collision"
        "The replacement schedule collides with an earlier occurrence" []
        (some (
          Current.collisions
            (map (λ (n : Note). (n.id, n.recurrence_key, n.starts_at)) colliding))))
