-- ===== src/Api/Series/RuleText.antt =====
-- The stored rule text names the frequency that it was written for.
use mad_devs_note_taker.Base.{◌≡◌, refl}
use mad_devs_note_taker.Base.Results.{ok}
use mad_devs_note_taker.Base.Text.{codes, partition}
use mad_devs_note_taker.Models.{Text}
use mad_devs_note_taker.Recurrence.{Frequency, daily, weekly, monthly}
use mad_devs_note_taker.Api.Series.{normalized_rrule, frequency_from_rrule}

-- Reading the stored rule text of a frequency returns the frequency, where `str.lower` turns the three
-- upper-case names into the lower-case ones.
pub frequency_from_rrule-normalized_rrule :
    (lower : Text → Text)
    → lower (codes "DAILY") ≡ codes "daily"
    → lower (codes "WEEKLY") ≡ codes "weekly"
    → lower (codes "MONTHLY") ≡ codes "monthly"
    → (f : Frequency) → frequency_from_rrule lower (normalized_rrule f) ≡ ok f
unfolding frequency_from_rrule normalized_rrule partition
frequency_from_rrule-normalized_rrule lower d w m daily = rw d refl
frequency_from_rrule-normalized_rrule lower d w m weekly = rw w refl
frequency_from_rrule-normalized_rrule lower d w m monthly = rw m refl
