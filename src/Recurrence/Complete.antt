-- ===== src/Recurrence/Complete.antt =====
-- An expansion leaves out no date that its schedule allows.
use mad_devs_note_taker.Base.{
  ℕ, suc, ◌≤◌, ◌≡◌, ◌⊎◌, inl, inr, refl, ap, Bool, true, false, List, [], String, Bool-cases, arith,
  Some, Some-append_right, leb, leb→le, not, ◌||◌, ◌&&◌, ◌==◌, leb-false→lt,
}
use mad_devs_note_taker.Base.Results.{ok}
use mad_devs_note_taker.Calendar.{
  LocalDate, LocalDateTime, IsDate, key, key-eq, date_leb, key-le→date_leb,
}
use mad_devs_note_taker.Recurrence.{
  Zones, Frequency, monthly, Occurrence, advance, visit, expand_occurrences, is_valid, is_monthly,
}
use mad_devs_note_taker.Recurrence.Step.{
  advance-later, OnTrack, advance-OnTrack, OnWeek, starts_week, advance-OnWeek, advance-next,
}
use mad_devs_note_taker.Recurrence.Loop.{loop_rule}
use mad_devs_note_taker.Recurrence.Visit.{visit-valid, Some-visit, expanded-loop}

x-valid :
    (f : Frequency) {d w : ℕ} {here : Bool}
    → (f ≡ monthly → d ≡ w)
    → here ≡ true
    → ((not (is_monthly f) || (d == w)) && here) ≡ true
x-valid monthly {d} {w} {here} e h = ground (arith, e refl)
x-valid _ e h = h

module _ (zones : Zones) (is_aware : Bool) (local_start : LocalDateTime) (timezone : String)
    (frequency : Frequency) (end_date : LocalDate) (limit : ℕ) (vs : IsDate local_start.date)
    (ve : IsDate end_date) (x : LocalDate) (vx : IsDate x)
    (weeks : OnWeek frequency local_start.date x)
    (on_day : frequency ≡ monthly → x.day ≡ local_start.date.day)
    (real : zones.datetime_exists timezone (record { date = x; micros = local_start.micros })
      ≡ true) where
  abbrev Listed : List Occurrence → Type 0
  Listed = Some (λ (o : Occurrence). o.local ≡ record { date = x; micros = local_start.micros })

  -- The date is listed, or the cursor has not passed it.
  abbrev Kept : List Occurrence → LocalDate → Type 0
  Kept result c =
      IsDate c
      × OnTrack frequency local_start.date.day c
      × OnWeek frequency local_start.date c
      × (Listed result ⊎ (key c ≤ key x))

  visited-x :
      (c : LocalDate) (result : List Occurrence) {result' : List Occurrence}
      → c ≡ x
      → visit zones timezone frequency local_start.date.day local_start.micros limit c result
        ≡ ok result'
      → Listed result'
  visited-x c result {result'} e v =
      rw
        (visit-valid zones timezone frequency local_start.date.day local_start.micros limit c result
          {result' = result'} v valid).0
        (Some-append_right _ result _
          (inl (ap (λ (d : LocalDate). record { date = d; micros = local_start.micros }) e)))
    where
      valid :
          is_valid zones timezone frequency local_start.date.day local_start.micros limit c ≡ true
      valid = rw e (x-valid frequency on_day real)

  Kept-step :
      (c c' : LocalDate) (result result' : List Occurrence)
      → Kept result c
      → date_leb c end_date ≡ true
      → visit zones timezone frequency local_start.date.day local_start.micros limit c result
        ≡ ok result'
      → advance frequency local_start.date.day c ≡ ok c'
      → Kept result' c'
  Kept-step c c' result result' (vc, t, wk, k) m v a = (
    (advance-later frequency local_start.date.day c {e = c'} vc vs.day_pos a).0,
    advance-OnTrack frequency local_start.date.day c {e = c'} a,
    advance-OnWeek frequency local_start.date.day local_start.date c {e = c'} wk a,
    keep k,
  )
    where
      keep : Listed result ⊎ (key c ≤ key x) → Listed result' ⊎ (key c' ≤ key x)
      keep (inl h) = inl (
          Some-visit zones timezone frequency local_start.date.day local_start.micros limit c result
            {result' = result'} v _ h)
      keep (inr h) = elim (Bool-cases (leb (key x) (key c))) [
        | inl there ↦ inl (
            visited-x c result {result' = result'}
              (key-eq c x vc vx (omega (arith, leb→le (key x) (key c) there))) v)
        | inr ahead ↦ inr (
            advance-next frequency local_start.date.day c x {e = c'} local_start.date wk weeks vc vx
              on_day t a (omega (arith, leb-false→lt (key x) (key c) ahead)))
      ]

  -- For a start and an end that are dates: every date from the start to the end whose wall time exists, in a
  -- monthly series each on the day of the start and in a weekly one each whole weeks after it, is in the result of
  -- an expansion that returns.
  pub expand_complete :
      (out : List Occurrence)
      → key local_start.date ≤ key x
      → key x ≤ key end_date
      → expand_occurrences zones is_aware local_start timezone frequency end_date limit ≡ ok out
      → Listed out
  expand_complete out from_start to_end h =
      let (c, (vc, _, _, k), past) =
        loop_rule zones timezone frequency local_start.date.day local_start.micros limit Kept
          end_date Kept-step (suc (key end_date)) local_start.date [] out
          (vs, on_start frequency, starts_week local_start.date frequency, inr from_start)
          (expanded-loop zones is_aware local_start timezone frequency end_date limit h) in
      final c vc past k
    where
      on_start : (f : Frequency) → OnTrack f local_start.date.day local_start.date
      on_start monthly = inl refl
      on_start _ = tt

      final :
          (c : LocalDate)
          → IsDate c
          → date_leb c end_date ≡ false
          → Listed out ⊎ (key c ≤ key x)
          → Listed out
      final c vc past (inl k) = k
      final c vc past (inr k) = cc (key-le→date_leb c end_date vc ve (omega arith), past)
