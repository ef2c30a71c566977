-- ===== src/Exceptions.antt =====
-- `set_exception` of backend/app/domain/recurrence.py: what of an occurrence differs from its series.
use mad_devs_note_taker.Base.{
  ℕ, Bool, true, false, ◌&&◌, not, if◌then◌else◌, leb, ◌==◌, Option, some, none, List, [], ◌∷◌,
  ◌++◌, select, map,
}
use mad_devs_note_taker.Base.Tables.{update_where, order_by}
use mad_devs_note_taker.Base.Text.{text_eq}
use mad_devs_note_taker.Models.{
  Db, Note, NoteTag, SeriesTag, SeriesReminderTemplate, RecurrenceSeries, OccurrenceException,
  OverriddenField,
}
use mad_devs_note_taker.Session.{M, ◌>>=◌, pure, lift, gets, modify, one, one_or_none}
use mad_devs_note_taker.Notes.{offsets_of}

abbrev pub bool_eq : Bool → Bool → Bool
bool_eq true b = b
bool_eq false b = not b

-- Whether two lists of numbers are equal.
abbrev pub ids_eq : List ℕ → List ℕ → Bool
ids_eq = text_eq

abbrev pub differs : OverriddenField → Bool → List OverriddenField
differs f same = if same then [] else f ∷ []

-- The fields whose value for the note is not the series' default. Starts are compared as texts:
-- `in_utc` tells whether the note's has the offset zero, as the key and all that the data base returns.
unfoldable pub overridden : Note → Bool → ℕ → RecurrenceSeries → Db → List OverriddenField
overridden note in_utc key series s =
    differs OverriddenField.title (text_eq note.title series.template_title)
    ++ (differs OverriddenField.body (text_eq note.body series.template_body)
        ++ (differs OverriddenField.starts_at ((note.starts_at == key) && in_utc)
            ++ (differs OverriddenField.active (bool_eq note.active series.template_active)
                ++ (differs OverriddenField.tag_ids (
                      ids_eq
                        (order_by leb (
                          map (λ (t : NoteTag). t.tag_id)
                            (select (λ (t : NoteTag). t.note_id == note.id) s.note_tags)))
                        (order_by leb (
                          map (λ (t : SeriesTag). t.tag_id)
                            (select (λ (t : SeriesTag). t.series_id == series.id) s.series_tags))))
                    ++ differs OverriddenField.reminder_offsets_minutes (
                        ids_eq (order_by leb (offsets_of note.id s)) (
                          order_by leb (
                            map (λ (t : SeriesReminderTemplate). t.offset_minutes)
                              (select (λ (t : SeriesReminderTemplate). t.series_id == series.id)
                                s.templates))))))))

abbrev pub is_exception : ℕ → ℕ → OccurrenceException → Bool
is_exception series_id key x = (x.series_id == series_id) && (x.recurrence_key == key)

abbrev pub cancelled_or : Bool → Option Bool → Bool
cancelled_or old none = old
cancelled_or old (some c) = c

-- Updates the row of the occurrence, or adds one.
unfoldable pub put_exception :
    ℕ → ℕ → Option Bool → List OverriddenField → Option OccurrenceException → M (Unit {0})
put_exception series_id key cancelled fields none = modify (λ s. record s {
  exceptions =
      s.exceptions
      ++ record {
        series_id = series_id;
        recurrence_key = key;
        overridden_fields = fields;
        cancelled = cancelled_or false cancelled;
      }
        ∷ [];
})
put_exception series_id key cancelled fields (some row) = modify (λ s. record s {
  exceptions =
      update_where (is_exception series_id key)
        (λ x. record x {
          overridden_fields = fields;
          cancelled = cancelled_or x.cancelled cancelled;
        })
        s.exceptions;
})

unfoldable pub set_exception_at : Note → Bool → ℕ → ℕ → Option Bool → M (Unit {0})
set_exception_at note in_utc series_id key cancelled = do
  series ←
      λ s. lift (one (select (λ (r : RecurrenceSeries). r.id == series_id) s.recurrence_series)) s
  row ← λ s. lift (one_or_none (select (is_exception series_id key) s.exceptions)) s
  fields ← gets (overridden note in_utc key series)
  put_exception series_id key cancelled fields row

abbrev pub set_exception_for : Note → Bool → Option Bool → Option ℕ → Option ℕ → M (Unit {0})
set_exception_for note in_utc cancelled none key = pure tt
set_exception_for note in_utc cancelled (some series_id) none = pure tt
set_exception_for note in_utc cancelled (some series_id) (some key) =
    set_exception_at note in_utc series_id key cancelled

unfoldable pub set_exception : Note → Bool → Option Bool → M (Unit {0})
set_exception note in_utc cancelled =
    set_exception_for note in_utc cancelled note.series_id note.recurrence_key
