-- ===== src/Calendar.antt =====
-- Dates and wall times as the standard library's `datetime` and `calendar` have them, as far as
-- backend/app/domain/recurrence.py computes with them.
use mad_devs_note_taker.Base.{
  ℕ, zero, suc, ◌+◌, ◌-◌, ◌*◌, ◌%◌, ◌≤◌, Bool, true, ◌&&◌, ◌||◌, not, if◌then◌else◌, ltb, leb, ◌==◌,
  Option, some, none, ◌≡◌, arith,
}

pub record LocalDate : Type 0 where
  pub year : ℕ
  pub month : ℕ
  pub day : ℕ

-- A naive `datetime`: a date and the microseconds since midnight.
pub record LocalDateTime : Type 0 where
  pub date : LocalDate
  pub micros : ℕ

abbrev pub max_year : ℕ
max_year = 9999

unfoldable pub is_leap : ℕ → Bool
is_leap y = (y % 4 == 0) && (not (y % 100 == 0) || (y % 400 == 0))

-- calendar.monthrange(year, month)[1]
unfoldable pub days_in_month : ℕ → ℕ → ℕ
unfolding is_leap
days_in_month y m =
    if m == 2
    then (if is_leap y then 29 else 28)
    else if (m == 4) || (m == 6) || (m == 9) || (m == 11)
    then 30
    else 31

-- Dates compare field by field.
unfoldable pub date_leb : LocalDate → LocalDate → Bool
date_leb a b =
    if a.year == b.year
    then (if a.month == b.month then leb a.day b.day else ltb a.month b.month)
    else ltb a.year b.year

-- The day after, `none` past the last day of the year 9999 (OverflowError).
unfoldable pub next_day : LocalDate → Option LocalDate
next_day d =
    if ltb d.day (days_in_month d.year d.month)
    then some (record d { day = d.day + 1 })
    else if ltb d.month 12
    then some (record { year = d.year; month = d.month + 1; day = 1 })
    else if ltb d.year max_year
    then some (record { year = d.year + 1; month = 1; day = 1 })
    else none

abbrev pub bind_date : Option LocalDate → (LocalDate → Option LocalDate) → Option LocalDate
bind_date none f = none
bind_date (some d) f = f d

-- date + timedelta(days=n)
unfoldable pub add_days : ℕ → LocalDate → Option LocalDate
unfolding next_day
add_days zero d = some d
add_days (suc n) d = bind_date (next_day d) (add_days n)

pub record IsDate (d : LocalDate) : Type 0 where
  pub year_pos : 1 ≤ d.year
  pub year_max : d.year ≤ max_year
  pub month_pos : 1 ≤ d.month
  pub month_max : d.month ≤ 12
  pub day_pos : 1 ≤ d.day
  pub day_max : d.day ≤ days_in_month d.year d.month

-- A number that orders dates as `date_leb` does.
abbrev pub key : LocalDate → ℕ
key d = (d.year * 12 + d.month) * 32 + d.day

pub days_in_month_bounds : (y m : ℕ) → (28 ≤ days_in_month y m) × (days_in_month y m ≤ 31)
unfolding days_in_month
days_in_month_bounds y m = ground arith

pub date_leb→key-le : (a b : LocalDate) → IsDate a → IsDate b → date_leb a b ≡ true → key a ≤ key b
unfolding date_leb
date_leb→key-le a b va vb h =
    ground (arith, days_in_month_bounds a.year a.month, days_in_month_bounds b.year b.month)

pub key-le→date_leb : (a b : LocalDate) → IsDate a → IsDate b → key a ≤ key b → date_leb a b ≡ true
unfolding date_leb
key-le→date_leb a b va vb h =
    ground (arith, days_in_month_bounds a.year a.month, days_in_month_bounds b.year b.month)

-- The key determines a valid date.
pub key-eq : (a b : LocalDate) → IsDate a → IsDate b → key a ≡ key b → a ≡ b
key-eq a b va vb h =
    ground (arith, days_in_month_bounds a.year a.month, days_in_month_bounds b.year b.month)

-- The day before, `none` before the first day of the year 1 (OverflowError).
unfoldable pub previous_day : LocalDate → Option LocalDate
previous_day d =
    if ltb 1 d.day
    then some (record d { day = d.day - 1 })
    else if ltb 1 d.month
    then some
        (record { year = d.year; month = d.month - 1; day = days_in_month d.year (d.month - 1) })
    else if ltb 1 d.year
    then some (record { year = d.year - 1; month = 12; day = 31 })
    else none
