-- ===== src/Recurrence/Loop.antt =====
-- The rule for the loop of `expand_occurrences`, and its termination.
use mad_devs_note_taker.Base.{
  ℕ, zero, suc, ◌≤◌, ◌<◌, ◌-◌, subst, ◌≡◌, ◌≢◌, inl, inr, true, false, List, String, Bool-cases,
  arith,
}
use mad_devs_note_taker.Base.Results.{Result, ok, err, Result-cases}
use mad_devs_note_taker.Calendar.{LocalDate, IsDate, key, date_leb, date_leb→key-le}
use mad_devs_note_taker.Recurrence.{
  Zones, Frequency, Occurrence, ExpandError, out_of_fuel, advance, visit, loop,
}
use mad_devs_note_taker.Recurrence.Step.{advance-later}

advance-fuel : (f : Frequency) (w : ℕ) (c : LocalDate) → advance f w c ≢ err out_of_fuel
unfolding advance
advance-fuel f w c = ground arith

module _ (zones : Zones) (timezone : String) (frequency : Frequency)
    (wanted_day micros limit : ℕ) where
  abbrev visits : LocalDate → List Occurrence → Result ExpandError (List Occurrence)
  visits = visit zones timezone frequency wanted_day micros limit

  abbrev runs : ℕ → LocalDate → LocalDate → List Occurrence → Result ExpandError (List Occurrence)
  runs = loop zones timezone frequency wanted_day micros limit

  -- What the rounds keep holds of the result, with the cursor that ended the loop.
  pub loop_rule :
      (P : List Occurrence → LocalDate → Type 0) (end_date : LocalDate)
      → ((cursor cursor' : LocalDate) (result result' : List Occurrence)
          → P result cursor
          → date_leb cursor end_date ≡ true
          → visits cursor result ≡ ok result'
          → advance frequency wanted_day cursor ≡ ok cursor'
          → P result' cursor')
      → (fuel : ℕ) (cursor : LocalDate) (result out : List Occurrence) → P result cursor
      → runs fuel end_date cursor result ≡ ok out
      → (c : LocalDate) × P out c × (date_leb c end_date ≡ false)
  unfolding loop
  loop_rule P end_date keep zero cursor result out h p = cc
  loop_rule P end_date keep (suc fuel) cursor result out h p =
      elim (Bool-cases (date_leb cursor end_date)) [
        | inr past ↦
            (cursor, (let e : result ≡ out = ground arith in subst (λ r. P r cursor) e h), past)
        | inl more ↦ elim (Result-cases (visits cursor result)) [
          | inr (e, q) ↦ absurd (ground arith)
          | inl (result', q) ↦ elim (Result-cases (advance frequency wanted_day cursor)) [
            | inr (e, r) ↦ absurd (ground arith)
            | inl (cursor', r) ↦
                loop_rule P end_date keep fuel cursor' result' out
                  (keep cursor cursor' result result' h more q r) (ground arith)
          ]
        ]
      ]

  visit-fuel :
      (cursor : LocalDate) (result : List Occurrence) → visits cursor result ≢ err out_of_fuel
  unfolding visit
  visit-fuel cursor result = ground arith

  -- With fuel for the days that are left, the loop ends by its own test or by an exception.
  pub loop_total :
      (end_date : LocalDate) (fuel : ℕ) (cursor : LocalDate) (result : List Occurrence)
      → IsDate end_date
      → IsDate cursor
      → 1 ≤ wanted_day
      → suc (key end_date) - key cursor < fuel
      → runs fuel end_date cursor result ≢ err out_of_fuel
  unfolding loop
  loop_total end_date zero cursor result ve vc w h = absurd (omega arith)
  loop_total end_date (suc fuel) cursor result ve vc w h =
      elim (Bool-cases (date_leb cursor end_date)) [
        | inr past ↦ ground arith
        | inl more ↦ elim (Result-cases (advance frequency wanted_day cursor)) [
          | inr (e, r) ↦
              ground (arith, visit-fuel cursor result, advance-fuel frequency wanted_day cursor)
          | inl (cursor', r) ↦ elim (Result-cases (visits cursor result)) [
            | inr (e, q) ↦ ground (arith, visit-fuel cursor result)
            | inl (result', q) ↦
                let (vn, later) = advance-later frequency wanted_day cursor {e = cursor'} vc w r in
                ground (
                  arith,
                  date_leb→key-le cursor end_date vc ve more,
                  loop_total end_date fuel cursor' result' ve vn w,
                )
          ]
        ]
      ]
