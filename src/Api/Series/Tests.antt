-- ===== src/Api/Series/Tests.antt =====
-- The stored text of a weekly series, under the lower case of ASCII letters, and a split.
use mad_devs_note_taker.Base.{ℕ, ◌+◌, ◌&&◌, if◌then◌else◌, leb, ◌≡◌, ◌∷◌, arith, refl, map}
use mad_devs_note_taker.Base.Results.{ok}
use mad_devs_note_taker.Models.{Db, Text}
use mad_devs_note_taker.Recurrence.{weekly}
use mad_devs_note_taker.Session.{day}
use mad_devs_note_taker.Session.Rules.{IfReturns}
use mad_devs_note_taker.Fixtures.{sample_note, utc_only, series_db, sample_split}
use mad_devs_note_taker.Api.Series.Split.{split_series}
use mad_devs_note_taker.Api.Series.Guards.{IsAllowed, KeepsStarted, split_series-IsAllowed}
use mad_devs_note_taker.Api.Series.{normalized_rrule, frequency_from_rrule}
use mad_devs_note_taker.Api.Series.RuleText.{frequency_from_rrule-normalized_rrule}

abbrev ascii_lower : Text → Text
ascii_lower = map (λ (c : ℕ). if leb 65 c && leb c 90 then c + 32 else c)

frequency_from_rrule-normalized_rrule_example :
    frequency_from_rrule ascii_lower (normalized_rrule weekly) ≡ ok weekly
frequency_from_rrule-normalized_rrule_example =
    frequency_from_rrule-normalized_rrule ascii_lower refl refl refl weekly

-- With a note beside the series that has started.
abbrev split_db : Db
split_db = record series_db {
  notes = record sample_note { id = 2; starts_at = day } ∷ series_db.notes;
}

split_series-IsAllowed_example :
    IfReturns
      (λ _ t.
        IsAllowed 20 sample_split split_db
        × KeepsStarted (split_db.clock split_db.reads) split_db t)
      (split_series utc_only ascii_lower 500 20 sample_split split_db)
split_series-IsAllowed_example =
    split_series-IsAllowed utc_only ascii_lower 500 20 sample_split split_db
      (((λ e. absurd (omega (arith, e))), tt), (tt, tt))
