-- ===== src/Recurrence.antt =====
-- The schedule of a series: `expand_occurrences` of backend/app/domain/recurrence.py and its cursor
-- steps.
--
-- The time zone data base (`zoneinfo`, `dateutil.tz`) is the parameter `Zones`.
pub mod Step
pub mod Loop
pub mod Visit
pub mod Schedule
pub mod Complete
mod Tests
use mad_devs_note_taker.Base.{
  ℕ, zero, suc, ◌+◌, Bool, true, false, ◌&&◌, ◌||◌, not, if◌then◌else◌, ltb, leb, ◌==◌, length,
  Option, some, none, List, [], ◌∷◌, ◌++◌, String, min,
}
use mad_devs_note_taker.Base.Results.{Result, ok, err, ◌>>=◌}
use mad_devs_note_taker.Calendar.{
  LocalDate, LocalDateTime, max_year, days_in_month, date_leb, add_days, key,
}

-- Whether `ZoneInfo(name)` and `tz.gettz(name)` find a zone; whether `tz.datetime_exists` and
-- `astimezone(UTC)` of a wall time in it at `fold=0` raise no OverflowError, and what they return then; the
-- local date of an instant.
pub record Zones : Type 0 where
  pub zone_info : String → Bool
  pub gettz : String → Bool
  pub converts : String → LocalDateTime → Bool
  pub datetime_exists : String → LocalDateTime → Bool
  pub to_utc : String → LocalDateTime → ℕ
  pub local_date : String → ℕ → LocalDate

pub data Frequency : Type 0 where
  daily weekly monthly : Frequency

-- The exceptions that end an expansion. `out_of_fuel` is the model's own and never returned.
pub data ExpandError : Type 0 where
  local_start_aware unknown_timezone end_before_start too_many : ExpandError
  date_out_of_range year_out_of_range out_of_fuel : ExpandError

abbrev pub max_occurrences : ℕ
max_occurrences = 10000

pub record Occurrence : Type 0 where
  pub local : LocalDateTime
  pub instant : ℕ

-- `none` is the ValueError of `replace` past the year 9999.
unfoldable pub next_month : LocalDate → ℕ → Option LocalDate
next_month value wanted_day =
    let year = if value.month == 12 then value.year + 1 else value.year in
    let month = if value.month == 12 then 1 else value.month + 1 in
    if ltb max_year year
    then none
    else some (record {
      year = year;
      month = month;
      day = if leb wanted_day (days_in_month year month) then wanted_day else 1;
    })

abbrev pub or_error : {A : Type 0} → ExpandError → Option A → Result ExpandError A
or_error e none = err e
or_error e (some a) = ok a

-- The last statement of the loop.
unfoldable pub advance : Frequency → ℕ → LocalDate → Result ExpandError LocalDate
advance daily wanted_day cursor = or_error date_out_of_range (add_days 1 cursor)
advance weekly wanted_day cursor = or_error date_out_of_range (add_days 7 cursor)
advance monthly wanted_day cursor = or_error year_out_of_range (next_month cursor wanted_day)

abbrev pub is_monthly : Frequency → Bool
is_monthly monthly = true
is_monthly _ = false

module _ (zones : Zones) (timezone : String) (frequency : Frequency)
    (wanted_day micros limit : ℕ) where
  abbrev pub wall : LocalDate → LocalDateTime
  wall cursor = record { date = cursor; micros = micros }

  abbrev pub valid_calendar_day : LocalDate → Bool
  valid_calendar_day cursor = not (is_monthly frequency) || (cursor.day == wanted_day)

  abbrev pub is_valid : LocalDate → Bool
  is_valid cursor = valid_calendar_day cursor && zones.datetime_exists timezone (wall cursor)

  abbrev pub occurrence : LocalDate → Occurrence
  occurrence cursor = record { local = wall cursor; instant = zones.to_utc timezone (wall cursor) }

  -- The body of the loop before the cursor moves.
  unfoldable pub visit : LocalDate → List Occurrence → Result ExpandError (List Occurrence)
  visit cursor result =
      if valid_calendar_day cursor && not (zones.converts timezone (wall cursor))
      then err date_out_of_range
      else if is_valid cursor
      then (if ltb limit (length (result ++ occurrence cursor ∷ []))
          then err too_many
          else ok (result ++ occurrence cursor ∷ []))
      else ok result

  unfoldable pub loop :
      ℕ → LocalDate → LocalDate → List Occurrence → Result ExpandError (List Occurrence)
  loop zero end_date cursor result = err out_of_fuel
  loop (suc fuel) end_date cursor result = elim (date_leb cursor end_date) [
    | true ↦ visit cursor result >>= λ result'.
        advance frequency wanted_day cursor >>= λ cursor'. loop fuel end_date cursor' result'
    | false ↦ ok result
  ]

-- Each round moves the cursor on, so the days up to the end bound the rounds.
unfoldable pub expand_occurrences :
    Zones
    → Bool
    → LocalDateTime
    → String
    → Frequency
    → LocalDate
    → ℕ
    → Result ExpandError (List Occurrence)
expand_occurrences zones is_aware local_start timezone frequency end_date limit =
    if is_aware
    then err local_start_aware
    else if not (zones.zone_info timezone)
    then err unknown_timezone
    else if not (zones.gettz timezone)
    then err unknown_timezone
    else if not (date_leb local_start.date end_date)
    then err end_before_start
    else loop zones timezone frequency local_start.date.day local_start.micros limit
        (suc (key end_date)) end_date local_start.date []
