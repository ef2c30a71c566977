-- ===== src/System/Steps.antt =====
-- The steps that the handlers share keep the constraints.
use mad_devs_note_taker.Base.{ℕ, Bool, String, List, Option, none, some, refl}
use mad_devs_note_taker.Models.{Note, RecurrenceSeries, OccurrenceException}
use mad_devs_note_taker.Session.{uuid4, utcnow}
use mad_devs_note_taker.Storage.{is_storable_event}
use mad_devs_note_taker.Notes.{
  add_event, validate_tags, replace_tags, require_note, check_note_version, write_note,
  write_series, lock_series, lock_series_by,
}
use mad_devs_note_taker.Exceptions.{
  set_exception, set_exception_for, set_exception_at, put_exception,
}
use mad_devs_note_taker.System.Keeps.{
  Keeps-raise_if_read, keeps_rules, Keeps, Keeps-bind, Keeps-pure, Keeps-lift, Keeps-raise,
  Keeps-raise_if,
}
use mad_devs_note_taker.System.Effects.{emit-Onward}
use mad_devs_note_taker.System.Reminders.{Keeps-reconcile_reminders}

pub Keeps-add_event :
    (event_type : String) (id version : ℕ) (series_id : Option ℕ)
    → Keeps (add_event event_type id version series_id)
unfolding add_event is_storable_event uuid4 utcnow
Keeps-add_event event_type id version series_id = record {
  at = λ s h. emit-Onward _ s _ h refl (record { accepted = refl }) refl refl refl;
}

-- The steps that the handlers of notes and series share.
pub Keeps-require_note : (id : ℕ) → Keeps (require_note id)
unfolding require_note
Keeps-require_note id = search (keeps_rules)

pub Keeps-check_note_version :
    (note : Note) (expected : ℕ) → Keeps (check_note_version note expected)
unfolding check_note_version
Keeps-check_note_version note expected = search (keeps_rules)

pub Keeps-validate_tags : (ids : List ℕ) → Keeps (validate_tags ids)
unfolding validate_tags
Keeps-validate_tags ids = search (keeps_rules)

pub Keeps-replace_tags : (note : Note) (ids : List ℕ) → Keeps (replace_tags note ids)
unfolding replace_tags
Keeps-replace_tags note ids = search (keeps_rules) depth 10

pub Keeps-write_note : (id : ℕ) (f : Note → Note) → Keeps (write_note id f)
unfolding write_note
Keeps-write_note id f = search (keeps_rules)

pub Keeps-write_series :
    (id : ℕ) (f : RecurrenceSeries → RecurrenceSeries) → Keeps (write_series id f)
unfolding write_series
Keeps-write_series id f = search (keeps_rules)

pub Keeps-lock_series_by : (o : Option ℕ) (id : ℕ) → Keeps (lock_series_by o id)
unfolding lock_series_by
Keeps-lock_series_by none id = search (keeps_rules)
Keeps-lock_series_by (some expected) id = search (keeps_rules, Keeps-write_series) depth 10

pub Keeps-lock_series : (o expected : Option ℕ) → Keeps (lock_series o expected)
unfolding lock_series
Keeps-lock_series none expected = search (keeps_rules)
Keeps-lock_series (some id) expected = Keeps-lock_series_by expected id

pub Keeps-put_exception :
    (series_id key : ℕ) (cancelled : Option Bool) (fields : List _) (o : Option OccurrenceException)
    → Keeps (put_exception series_id key cancelled fields o)
unfolding put_exception
Keeps-put_exception series_id key cancelled fields none = search (keeps_rules)
Keeps-put_exception series_id key cancelled fields (some x) = search (keeps_rules)

pub Keeps-set_exception :
    (note : Note) (in_utc : Bool) (cancelled : Option Bool)
    → Keeps (set_exception note in_utc cancelled)
unfolding set_exception set_exception_at
Keeps-set_exception note in_utc cancelled = for_key note.series_id note.recurrence_key
  where
    for_key :
        (series_id key : Option ℕ) → Keeps (set_exception_for note in_utc cancelled series_id key)
    for_key none key = search (keeps_rules)
    for_key (some series_id) none = search (keeps_rules)
    for_key (some series_id) (some key) = search (keeps_rules, Keeps-put_exception) depth 10

pub ruleset note_rules = (
  keeps_rules, Keeps-add_event, Keeps-require_note, Keeps-check_note_version, Keeps-validate_tags,
  Keeps-replace_tags, Keeps-write_note, Keeps-write_series, Keeps-lock_series, Keeps-set_exception,
  Keeps-reconcile_reminders,
)
