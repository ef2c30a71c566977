-- ===== src/Recurrence/Schedule.antt =====
-- What `expand_occurrences` returns: which occurrences, in which order, how many.
use mad_devs_note_taker.Base.{
  ℕ, suc, ◌+◌, ◌≤◌, ◌<◌, ◌≡◌, ◌≢◌, inl, inr, refl, Bool, true, List, [], ◌∷◌, ◌++◌, String,
  Bool-cases, arith, length, All, All-append, All-imp,
}
use mad_devs_note_taker.Base.Results.{Result, ok, err}
use mad_devs_note_taker.Calendar.{
  days_in_month_bounds, key-le→date_leb, LocalDate, LocalDateTime, IsDate, key, date_leb,
  date_leb→key-le,
}
use mad_devs_note_taker.Recurrence.{
  Zones, Frequency, monthly, Occurrence, ExpandError, out_of_fuel, advance, visit,
  expand_occurrences, is_valid, occurrence,
}
use mad_devs_note_taker.Recurrence.Step.{advance-later, OnWeek, starts_week, advance-OnWeek}
use mad_devs_note_taker.Recurrence.Loop.{loop_rule, loop_total}
use mad_devs_note_taker.Recurrence.Visit.{visit-valid, visit-invalid, expanded-loop}

-- An occurrence that the schedule allows.
pub record IsSlot (zones : Zones) (timezone : String) (frequency : Frequency)
    (local_start : LocalDateTime) (end_date : LocalDate) (o : Occurrence) : Type 0 where
  pub is_date : IsDate o.local.date
  pub from_start : key local_start.date ≤ key o.local.date
  pub to_end : key o.local.date ≤ key end_date
  pub same_time : o.local.micros ≡ local_start.micros
  pub on_day : frequency ≡ monthly → o.local.date.day ≡ local_start.date.day
  pub on_week : OnWeek frequency local_start.date o.local.date
  pub real : zones.datetime_exists timezone o.local ≡ true
  pub at_instant : o.instant ≡ zones.to_utc timezone o.local

-- Each date comes before all later ones.
abbrev pub Increasing : List Occurrence → Type 0
Increasing [] = Unit
Increasing (o ∷ os) =
    All (λ (p : Occurrence). key o.local.date < key p.local.date) os × Increasing os

abbrev Before : LocalDate → List Occurrence → Type 0
Before c os = All (λ (p : Occurrence). key p.local.date < key c) os

Increasing-append :
    (o : Occurrence) (os : List Occurrence)
    → Increasing os
    → Before o.local.date os
    → Increasing (os ++ o ∷ [])
Increasing-append o [] h b = (tt, tt)
Increasing-append o (p ∷ os) h b = (
  All-append (λ (q : Occurrence). key p.local.date < key q.local.date) os (o ∷ []) h.0 (b.0, tt),
  Increasing-append o os h.1 b.1,
)

module _ (zones : Zones) (is_aware : Bool) (local_start : LocalDateTime) (timezone : String)
    (frequency : Frequency) (end_date : LocalDate) (limit : ℕ) (vs : IsDate local_start.date)
    (ve : IsDate end_date) where
  abbrev expanded : Result ExpandError (List Occurrence)
  expanded = expand_occurrences zones is_aware local_start timezone frequency end_date limit

  abbrev Slot : Occurrence → Type 0
  Slot = IsSlot zones timezone frequency local_start end_date

  abbrev here : LocalDate → Occurrence
  here = occurrence zones timezone frequency local_start.date.day local_start.micros limit

  record Good (result : List Occurrence) (cursor : LocalDate) : Type 0 where
    is_date : IsDate cursor
    on_week : OnWeek frequency local_start.date cursor
    from_start : key local_start.date ≤ key cursor
    slots : All Slot result
    increasing : Increasing result
    before : Before cursor result
    bounded : length result ≤ limit

  here-Slot :
      (c : LocalDate)
      → IsDate c
      → OnWeek frequency local_start.date c
      → key local_start.date ≤ key c
      → key c ≤ key end_date
      → is_valid zones timezone frequency local_start.date.day local_start.micros limit c ≡ true
      → Slot (here c)
  here-Slot c v wk l u a = record {
    is_date = v;
    from_start = l;
    to_end = u;
    same_time = refl;
    on_day = λ m. ground arith;
    on_week = wk;
    real = ground arith;
    at_instant = refl;
  }

  moved :
      (c c' : LocalDate) {result : List Occurrence}
      → Good result c
      → advance frequency local_start.date.day c ≡ ok c'
      → IsDate c' × (key c + 1 ≤ key c')
  moved c c' {result} g a =
      advance-later frequency local_start.date.day c {e = c'} g.is_date vs.day_pos a

  Before-next :
      (c c' : LocalDate) (result : List Occurrence)
      → Good result c
      → advance frequency local_start.date.day c ≡ ok c'
      → Before c' result
  Before-next c c' result g a =
      All-imp (λ (p : Occurrence). key p.local.date < key c)
        (λ (p : Occurrence). key p.local.date < key c') (λ p h. omega (arith, (moved c c' g a).1))
        result g.before

  Good-step :
      (c c' : LocalDate) (result result' : List Occurrence)
      → Good result c
      → date_leb c end_date ≡ true
      → visit zones timezone frequency local_start.date.day local_start.micros limit c result
        ≡ ok result'
      → advance frequency local_start.date.day c ≡ ok c'
      → Good result' c'
  Good-step c c' result result' g m v a =
      elim (Bool-cases
        (is_valid zones timezone frequency local_start.date.day local_start.micros limit c)) [
          | inl yes_here ↦
              let (added, fits) =
                visit-valid zones timezone frequency local_start.date.day local_start.micros limit c
                  result {result' = result'} v yes_here in
              let slot =
                here-Slot c g.is_date g.on_week g.from_start
                  (date_leb→key-le c end_date g.is_date ve m) yes_here in
              record {
                is_date = (moved c c' g a).0;
                on_week =
                    advance-OnWeek frequency local_start.date.day local_start.date c {e = c'}
                      g.on_week a;
                from_start = omega (arith, g.from_start, (moved c c' g a).1);
                slots = rw added (All-append Slot result (here c ∷ []) g.slots (slot, tt));
                increasing = rw added (Increasing-append (here c) result g.increasing g.before);
                before = rw added (
                    All-append (λ (p : Occurrence). key p.local.date < key c') result (here c ∷ [])
                      (Before-next c c' result g a) (omega (arith, (moved c c' g a).1), tt));
                bounded = fits;
              }
          | inr skipped ↦
              let same =
                visit-invalid zones timezone frequency local_start.date.day local_start.micros limit
                  c result {result' = result'} v skipped in
              record {
                is_date = (moved c c' g a).0;
                on_week =
                    advance-OnWeek frequency local_start.date.day local_start.date c {e = c'}
                      g.on_week a;
                from_start = omega (arith, g.from_start, (moved c c' g a).1);
                slots = rw same g.slots;
                increasing = rw same g.increasing;
                before = rw same (Before-next c c' result g a);
                bounded = rw same g.bounded;
              }
        ]

  start : Good [] local_start.date
  start = record {
    is_date = vs;
    on_week = starts_week local_start.date frequency;
    from_start = omega arith;
    slots = tt;
    increasing = tt;
    before = tt;
    bounded = omega arith;
  }

  -- For a start and an end that are dates: every occurrence that is returned lies on a date from the start to the
  -- end, at the start's time of day, on the start's day of the month in a monthly series, whole weeks after the
  -- start in a weekly one, at a wall time that exists, and has that wall time's instant; the dates increase, and
  -- there are at most `limit` occurrences.
  pub expand_sound :
      (out : List Occurrence)
      → expanded ≡ ok out
      → All Slot out × Increasing out × (length out ≤ limit)
  expand_sound out h =
      let (c, g, past) =
        loop_rule zones timezone frequency local_start.date.day local_start.micros limit Good
          end_date Good-step (suc (key end_date)) local_start.date [] out start
          (expanded-loop zones is_aware local_start timezone frequency end_date limit h) in
      (g.slots, g.increasing, g.bounded)

  -- For a start and an end that are dates, the fuel of the expansion's loop never runs out.
  pub expand_total : expanded ≢ err out_of_fuel
  unfolding expand_occurrences
  expand_total = ground (
    arith,
    loop_total zones timezone frequency local_start.date.day local_start.micros limit end_date
        (suc (key end_date)) local_start.date [] ve vs vs.day_pos,
  )

  -- No expansion from a date up to the last day of the year 9999 returns, though the last day counts as included:
  -- the cursor would have to move past it.
  pub expand_last_day :
      (out : List Occurrence)
      → end_date ≡ record { year = 9999; month = 12; day = 31 }
      → expanded ≢ ok out
  expand_last_day out last h =
      let (c, g, past) =
        loop_rule zones timezone frequency local_start.date.day local_start.micros limit Good
          end_date Good-step (suc (key end_date)) local_start.date [] out start
          (expanded-loop zones is_aware local_start timezone frequency end_date limit h) in
      let room = days_in_month_bounds c.year c.month in
      let v = g.is_date in
      let e : key end_date ≡ 3_840_031 = rw last refl in
      let before_end : key c ≤ key end_date =
        omega (arith, v.year_max, v.month_max, v.day_max, room.1, e) in
      cc (key-le→date_leb c end_date v ve before_end, past)
