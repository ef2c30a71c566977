-- ===== src/Recurrence/Tests.antt =====
-- The expansion on the last days of the months of 2024.
use mad_devs_note_taker.Base.{
  ◌≡◌, ◌≢◌, ◌≤◌, ◌+◌, ◌*◌, refl, false, [], ◌∷◌, arith, All, Some, length,
}
use mad_devs_note_taker.Base.Results.{ok, err}
use mad_devs_note_taker.Calendar.{
  LocalDate, LocalDateTime, IsDate, days_in_month, is_leap, date_leb, key, add_days, next_day,
}
use mad_devs_note_taker.Session.{day}
use mad_devs_note_taker.Fixtures.{utc_only, january_31, march_31, april_2, nine_o_clock}
use mad_devs_note_taker.Recurrence.{
  Occurrence, daily, weekly, monthly, out_of_fuel, next_month, expand_occurrences, loop, visit,
  advance,
}
use mad_devs_note_taker.Recurrence.Schedule.{
  IsSlot, Increasing, expand_sound, expand_total, expand_last_day,
}
use mad_devs_note_taker.Recurrence.Complete.{expand_complete}

abbrev start : LocalDateTime
start = record { date = january_31; micros = nine_o_clock }

abbrev at_nine : LocalDate → Occurrence
at_nine d = record {
  local = record { date = d; micros = nine_o_clock };
  instant = key d * day + nine_o_clock;
}

january_31-IsDate : IsDate january_31
unfolding days_in_month
january_31-IsDate = record {
  year_pos = omega arith;
  year_max = omega arith;
  month_pos = omega arith;
  month_max = omega arith;
  day_pos = omega arith;
  day_max = omega arith;
}

march_31-IsDate : IsDate march_31
unfolding days_in_month
march_31-IsDate = record {
  year_pos = omega arith;
  year_max = omega arith;
  month_pos = omega arith;
  month_max = omega arith;
  day_pos = omega arith;
  day_max = omega arith;
}

april_2-IsDate : IsDate april_2
unfolding days_in_month
april_2-IsDate = record {
  year_pos = omega arith;
  year_max = omega arith;
  month_pos = omega arith;
  month_max = omega arith;
  day_pos = omega arith;
  day_max = omega arith;
}

-- A month without the day is passed over.
ends_of_months :
    expand_occurrences utc_only false start "UTC" monthly april_2 10
    ≡ ok (at_nine january_31 ∷ at_nine march_31 ∷ [])
unfolding expand_occurrences loop visit advance next_month date_leb days_in_month is_leap
ends_of_months = refl

abbrev february_7 : LocalDate
february_7 = record { year = 2024; month = 2; day = 7 }

february_7-IsDate : IsDate february_7
unfolding days_in_month
february_7-IsDate = record {
  year_pos = omega arith;
  year_max = omega arith;
  month_pos = omega arith;
  month_max = omega arith;
  day_pos = omega arith;
  day_max = omega arith;
}

two_weeks :
    expand_occurrences utc_only false start "UTC" weekly february_7 10
    ≡ ok (at_nine january_31 ∷ at_nine february_7 ∷ [])
unfolding expand_occurrences loop visit advance add_days next_day date_leb days_in_month is_leap
two_weeks = refl

expand_sound_example :
    All
      (IsSlot utc_only "UTC" weekly start february_7)
      (at_nine january_31 ∷ at_nine february_7 ∷ [])
    × Increasing (at_nine january_31 ∷ at_nine february_7 ∷ [])
    × (length (at_nine january_31 ∷ at_nine february_7 ∷ []) ≤ 10)
expand_sound_example =
    expand_sound utc_only false start "UTC" weekly february_7 10 january_31-IsDate february_7-IsDate
      (at_nine january_31 ∷ at_nine february_7 ∷ []) two_weeks

expand_total_example :
    expand_occurrences utc_only false start "UTC" monthly april_2 10 ≢ err out_of_fuel
expand_total_example =
    expand_total utc_only false start "UTC" monthly april_2 10 january_31-IsDate april_2-IsDate

expand_complete_example :
    Some
      (λ (o : Occurrence). o.local ≡ record { date = march_31; micros = nine_o_clock })
      (at_nine january_31 ∷ at_nine march_31 ∷ [])
expand_complete_example =
    expand_complete utc_only false start "UTC" monthly april_2 10 january_31-IsDate april_2-IsDate
      march_31 march_31-IsDate tt (λ e. refl) refl (at_nine january_31 ∷ at_nine march_31 ∷ [])
      (omega arith) (omega arith) ends_of_months

abbrev last_day : LocalDate
last_day = record { year = 9999; month = 12; day = 31 }

last_day-IsDate : IsDate last_day
unfolding days_in_month
last_day-IsDate = record {
  year_pos = omega arith;
  year_max = omega arith;
  month_pos = omega arith;
  month_max = omega arith;
  day_pos = omega arith;
  day_max = omega arith;
}

expand_last_day_example : expand_occurrences utc_only false start "UTC" daily last_day 10000 ≢ ok []
expand_last_day_example =
    expand_last_day utc_only false start "UTC" daily last_day 10000 january_31-IsDate
      last_day-IsDate [] refl
