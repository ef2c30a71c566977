-- ===== src/System/Splitting.antt =====
-- Splitting a series keeps the constraints.
use mad_devs_note_taker.Base.{ℕ, List, Option, none, some, ◌∷◌, [], ◌++◌}
use mad_devs_note_taker.Models.{Text, Note, RecurrenceSeries}
use mad_devs_note_taker.Recurrence.{Zones, Occurrence}
use mad_devs_note_taker.Schemas.{SeriesFields, SeriesSplit}
use mad_devs_note_taker.Api.Series.Split.{
  split_series, split_from, take_over, split_occurrences, split_occurrence, supersede,
  drop_exceptions, affected_at,
}
use mad_devs_note_taker.Api.Series.Checks.{
  check_leaf, select_occurrence, check_affected, check_generated,
}
use mad_devs_note_taker.System.Keeps.{keeps_rules, Keeps, Keeps-bind, Keeps-pure}
use mad_devs_note_taker.System.Steps.{note_rules}
use mad_devs_note_taker.System.Series.{series_rules}

Keeps-check_leaf : (old : RecurrenceSeries) (version : ℕ) → Keeps (check_leaf old version)
unfolding check_leaf
Keeps-check_leaf old version = search (keeps_rules) depth 10

Keeps-select_occurrence :
    (old : RecurrenceSeries) (p : SeriesSplit) → Keeps (select_occurrence old p)
unfolding select_occurrence
Keeps-select_occurrence old p = search (keeps_rules) depth 10

Keeps-check_affected : (now : ℕ) (notes : List Note) → Keeps (check_affected now notes)
unfolding check_affected
Keeps-check_affected now notes = search (keeps_rules) depth 10

Keeps-check_generated :
    (old : RecurrenceSeries) (p : SeriesSplit) (now : ℕ) (os : List Occurrence)
    → Keeps (check_generated old p now os)
unfolding check_generated
Keeps-check_generated old p now os = search (series_rules) depth 10

Keeps-split_occurrence :
    (id : ℕ) (title : Text) (p : SeriesFields) (now : ℕ) (o : Occurrence) (n : Option Note)
    → Keeps (split_occurrence id title p now o n)
unfolding split_occurrence
Keeps-split_occurrence id title p now o none = search (note_rules) depth 20
Keeps-split_occurrence id title p now o (some n) = search (note_rules) depth 20

Keeps-split_occurrences :
    (id : ℕ) (title : Text) (p : SeriesFields) (now : ℕ) (affected : List Note)
    (os : List Occurrence)
    → Keeps (split_occurrences id title p now affected os)
unfolding split_occurrences
Keeps-split_occurrences id title p now affected [] = search (keeps_rules)
Keeps-split_occurrences id title p now affected (o ∷ os) =
    Keeps-bind (split_occurrence id title p now o (affected_at affected o.instant)) _
      (Keeps-split_occurrence id title p now o (affected_at affected o.instant))
      (λ kept.
        Keeps-bind (split_occurrences id title p now affected os) _
          (Keeps-split_occurrences id title p now affected os)
          (λ others. Keeps-pure (kept ++ others)))

Keeps-supersede : (now : ℕ) (kept : List ℕ) (note : Note) → Keeps (supersede now kept note)
unfolding supersede
Keeps-supersede now kept note = search (note_rules) depth 10

Keeps-drop_exceptions : (id key : ℕ) (notes : List Note) → Keeps (drop_exceptions id key notes)
unfolding drop_exceptions
Keeps-drop_exceptions id key notes = search (keeps_rules)

Keeps-take_over :
    (zones : Zones) (old : RecurrenceSeries) (p : SeriesSplit) (now : ℕ) (affected : List Note)
    (os : List Occurrence)
    → Keeps (take_over zones old p now affected os)
unfolding take_over
Keeps-take_over zones old p now affected os =
    search (series_rules, Keeps-split_occurrences, Keeps-supersede, Keeps-drop_exceptions) depth 40

Keeps-split_from :
    (zones : Zones) (lower : Text → Text) (limit : ℕ) (old : RecurrenceSeries) (p : SeriesSplit)
    (now : ℕ) (affected : List Note)
    → Keeps (split_from zones lower limit old p now affected)
unfolding split_from
Keeps-split_from zones lower limit old p now affected =
    search (series_rules, Keeps-check_generated, Keeps-take_over) depth 40

pub Keeps-split_series :
    (zones : Zones) (lower : Text → Text) (limit id : ℕ) (p : SeriesSplit)
    → Keeps (split_series zones lower limit id p)
unfolding split_series
Keeps-split_series zones lower limit id p =
    search
      (
        series_rules, Keeps-check_leaf, Keeps-select_occurrence, Keeps-check_affected,
        Keeps-split_from,
      )
      depth 40
