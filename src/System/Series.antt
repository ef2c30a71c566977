-- ===== src/System/Series.antt =====
-- So do the handlers of series, which write many notes in one transaction.
use mad_devs_note_taker.Base.{ℕ, Bool, String, List, Option, none, some, refl, ◌∷◌, []}
use mad_devs_note_taker.Models.{
  RecurringTrashAction, Text, Note, RecurrenceSeries, OccurrenceException,
}
use mad_devs_note_taker.Recurrence.{Zones, Occurrence}
use mad_devs_note_taker.Schemas.{RestoreRequest, NoteFields, SeriesFields, SeriesPortionRequest}
use mad_devs_note_taker.Session.{uuid4, lift}
use mad_devs_note_taker.Storage.Rows.{first-IsStorable}
use mad_devs_note_taker.Reminders.{due_at}
use mad_devs_note_taker.Api.Series.{locked_series, series_response_data, check_first, add_series}
use mad_devs_note_taker.Api.Series.Create.{
  create_series, create_series_rows, create_occurrence, create_reminder, first_delivery,
}
use mad_devs_note_taker.Api.Series.Trash.{
  trash_series_portion, portion_boundary, add_action, fill_action, hold_note, seal_action,
  finish_series, restore_action, release_note, check_selected, restore_trash_action, restore_note,
  restore_by, restore_held,
}
use mad_devs_note_taker.Api.Series.Restore.{
  restore_series_portion, restore_portion, restore_one_action, restore_legacy_portion,
  restore_legacy, restore_legacy_note,
}
use mad_devs_note_taker.System.Keeps.{keeps_rules, Keeps, Keeps-bind, Keeps-lift, Keeps-uuid4}
use mad_devs_note_taker.System.Effects.{Keeps-insert}
use mad_devs_note_taker.System.Handlers.{Keeps-restore_single}
use mad_devs_note_taker.System.Steps.{note_rules}

pub Keeps-series_response_data :
    (lower : Text → Text) (series : RecurrenceSeries) → Keeps (series_response_data lower series)
unfolding series_response_data
Keeps-series_response_data lower series = search (keeps_rules)

pub Keeps-locked_series : (id : ℕ) (expected : Option ℕ) → Keeps (locked_series id expected)
unfolding locked_series
Keeps-locked_series id expected = search (keeps_rules)

pub Keeps-check_first :
    (fields : List String) (starts_at : ℕ) (os : List Occurrence)
    → Keeps (check_first fields starts_at os)
unfolding check_first
Keeps-check_first fields starts_at [] = search (keeps_rules)
Keeps-check_first fields starts_at (o ∷ os) = search (keeps_rules)

pub Keeps-add_series : (series : RecurrenceSeries) (p : NoteFields) → Keeps (add_series series p)
unfolding add_series
Keeps-add_series series p = search (keeps_rules)

pub ruleset series_rules = (
  note_rules, Keeps-series_response_data, Keeps-locked_series, Keeps-check_first, Keeps-add_series,
)

Keeps-create_reminder :
    (note_id instant : ℕ) (active : Bool) (now offset : ℕ)
    → Keeps (create_reminder note_id instant active now offset)
unfolding create_reminder
Keeps-create_reminder note_id instant active now offset = Keeps-bind uuid4 _ Keeps-uuid4 (λ rule_id.
    Keeps-bind (lift (due_at instant offset)) _ (Keeps-lift _) (λ deadline.
      Keeps-insert (λ id. first_delivery id rule_id deadline active now) _ (λ id. refl)
        (λ id. first-IsStorable id rule_id deadline now active) (λ id s. refl) (λ id s. refl)
        (λ id s. refl)))

Keeps-create_occurrence :
    (series_id : ℕ) (title : Text) (p : SeriesFields) (now : ℕ) (o : Occurrence)
    → Keeps (create_occurrence series_id title p now o)
unfolding create_occurrence
Keeps-create_occurrence series_id title p now o =
    search (series_rules, Keeps-create_reminder) depth 10

Keeps-create_series_rows :
    (zones : Zones) (p : SeriesFields) (now limit : ℕ)
    → Keeps (create_series_rows zones p now limit)
unfolding create_series_rows
Keeps-create_series_rows zones p now limit = search (series_rules, Keeps-create_occurrence) depth 30

pub Keeps-create_series :
    (zones : Zones) (lower : Text → Text) (limit : ℕ) (p : SeriesFields)
    → Keeps (create_series zones lower limit p)
unfolding create_series
Keeps-create_series zones lower limit p = search (series_rules, Keeps-create_series_rows) depth 10

-- Trash
Keeps-portion_boundary :
    (series : RecurrenceSeries) (o : Option ℕ) (b : Bool) → Keeps (portion_boundary series o b)
unfolding portion_boundary
Keeps-portion_boundary series o b = search (keeps_rules) depth 10

Keeps-hold_note : (action_id now : ℕ) (note : Note) → Keeps (hold_note action_id now note)
unfolding hold_note
Keeps-hold_note action_id now note = search (note_rules) depth 10

Keeps-release_note : (now : ℕ) (note : Note) → Keeps (release_note now note)
unfolding release_note
Keeps-release_note now note = search (note_rules) depth 10

Keeps-add_action : (id boundary : ℕ) → Keeps (add_action id boundary)
unfolding add_action
Keeps-add_action id boundary = search (keeps_rules) depth 10

Keeps-seal_action : (id at : ℕ) → Keeps (seal_action id at)
unfolding seal_action
Keeps-seal_action id at = search (keeps_rules)

Keeps-finish_series : (series : RecurrenceSeries) (now : ℕ) → Keeps (finish_series series now)
unfolding finish_series
Keeps-finish_series series now = search (note_rules) depth 10

Keeps-check_selected : (o : Option (ℕ × ℕ)) (notes : List Note) → Keeps (check_selected o notes)
unfolding check_selected
Keeps-check_selected none notes = search (note_rules)
Keeps-check_selected (some (id, version)) notes = search (note_rules)

Keeps-fill_action : (a : RecurringTrashAction) (ids : List ℕ) → Keeps (fill_action a ids)
unfolding fill_action
Keeps-fill_action a ids = search (note_rules, Keeps-hold_note) depth 10

ruleset trash_rules = (
  series_rules, Keeps-portion_boundary, Keeps-hold_note, Keeps-release_note, Keeps-add_action,
  Keeps-fill_action, Keeps-seal_action, Keeps-finish_series, Keeps-check_selected,
)

pub Keeps-trash_series_portion :
    (id : ℕ) (p : SeriesPortionRequest) → Keeps (trash_series_portion id p)
unfolding trash_series_portion
Keeps-trash_series_portion id p = search (trash_rules) depth 40

Keeps-restore_action :
    (id expected : ℕ) (selected : Option (ℕ × ℕ)) → Keeps (restore_action id expected selected)
unfolding restore_action
Keeps-restore_action id expected selected = search (trash_rules) depth 40

pub Keeps-restore_trash_action :
    (lower : Text → Text) (id expected : ℕ) → Keeps (restore_trash_action lower id expected)
unfolding restore_trash_action
Keeps-restore_trash_action lower id expected = search (series_rules, Keeps-restore_action)

pub Keeps-restore_note : (id : ℕ) (p : RestoreRequest) → Keeps (restore_note id p)
unfolding restore_note
Keeps-restore_note id p = search (note_rules, by) depth 10
  where
    held : (action_id : ℕ) (o : Option ℕ) → Keeps (restore_held id p action_id o)
    held action_id none = search (keeps_rules)
    held action_id (some expected) = search (note_rules, Keeps-restore_action) depth 10

    by : (o : Option ℕ) → Keeps (restore_by id p o)
    by none = Keeps-restore_single id p
    by (some action_id) = held action_id p.expected_series_version

-- Restoring a portion
Keeps-restore_one_action :
    (id : ℕ) (p : SeriesPortionRequest) (legacy : Bool) → Keeps (restore_one_action id p legacy)
unfolding restore_one_action
Keeps-restore_one_action id p legacy = search (keeps_rules, Keeps-restore_action) depth 10

Keeps-restore_legacy : (series_id now : ℕ) (note : Note) → Keeps (restore_legacy series_id now note)
unfolding restore_legacy restore_legacy_note
Keeps-restore_legacy series_id now note = search (keeps_rules, of_note)
  where
    of_note : (o : Option OccurrenceException) → Keeps (restore_legacy_note series_id now o note)
    of_note o = search (note_rules) depth 10

Keeps-restore_legacy_portion :
    (series : RecurrenceSeries) (o : Option ℕ) → Keeps (restore_legacy_portion series o)
unfolding restore_legacy_portion
Keeps-restore_legacy_portion series o = search (trash_rules, Keeps-restore_legacy) depth 20

pub Keeps-restore_series_portion :
    (lower : Text → Text) (id : ℕ) (p : SeriesPortionRequest)
    → Keeps (restore_series_portion lower id p)
unfolding restore_series_portion
Keeps-restore_series_portion lower id p = search (series_rules, portion) depth 10
  where
    portion :
        (series : RecurrenceSeries) (legacy : Bool) (ids : List ℕ)
        → Keeps (restore_portion series p legacy ids)
    portion series legacy [] = Keeps-restore_legacy_portion series p.recurrence_key
    portion series legacy (a ∷ []) = Keeps-restore_one_action a p legacy
    portion series legacy (a ∷ b ∷ ids) = search (keeps_rules)
