-- ===== src/Recurrence/Visit.antt =====
-- One visit of a date by the loop of `expand_occurrences`, and the loop behind its guards.
use mad_devs_note_taker.Base.{
  ℕ, suc, ◌≤◌, ◌≡◌, Bool, true, false, List, [], ◌∷◌, ◌++◌, String, arith, length, Some,
  Some-append_left, Bool-cases, inl, inr,
}
use mad_devs_note_taker.Base.Results.{ok}
use mad_devs_note_taker.Calendar.{LocalDate, LocalDateTime, key}
use mad_devs_note_taker.Recurrence.{
  Zones, Frequency, Occurrence, visit, loop, expand_occurrences, is_valid, occurrence,
}

module _ (zones : Zones) (timezone : String) (frequency : Frequency) (wanted_day micros limit : ℕ)
    (c : LocalDate) (result : List Occurrence) {result' : List Occurrence}
    (visited : visit zones timezone frequency wanted_day micros limit c result ≡ ok result') where
  pub visit-valid :
      is_valid zones timezone frequency wanted_day micros limit c ≡ true
      → (result' ≡ result ++ occurrence zones timezone frequency wanted_day micros limit c ∷ [])
        × (length result' ≤ limit)
  unfolding visit
  visit-valid a = ground arith

  pub visit-invalid :
      is_valid zones timezone frequency wanted_day micros limit c ≡ false → result' ≡ result
  unfolding visit
  visit-invalid a = ground arith

  -- What is in the result stays there.
  pub Some-visit : (P : Occurrence → Type 0) → Some P result → Some P result'
  Some-visit P h = elim (Bool-cases (is_valid zones timezone frequency wanted_day micros limit c)) [
    | inl a ↦ rw (visit-valid a).0 (Some-append_left P result _ h)
    | inr a ↦ rw (visit-invalid a) h
  ]

module _ (zones : Zones) (is_aware : Bool) (local_start : LocalDateTime) (timezone : String)
    (frequency : Frequency) (end_date : LocalDate) (limit : ℕ) {out : List Occurrence}
    (done : expand_occurrences zones is_aware local_start timezone frequency end_date limit
      ≡ ok out) where
  -- An expansion that returns has passed the guards.
  pub expanded-loop :
      loop zones timezone frequency local_start.date.day local_start.micros limit
        (suc (key end_date))
        end_date
        local_start.date
        []
      ≡ ok out
  unfolding expand_occurrences
  expanded-loop = ground arith
