-- ===== src/Storage/Rows.antt =====
-- The writes of the handlers and the sending jobs to a delivery give a row that the checks accept, from such a
-- row. The redaction of a purge does so only outside an attempt (System/Jobs/Purge).
use mad_devs_note_taker.Base.{ℕ, Bool, true, ◌||◌, ◌≡◌, arith, Bool-cases, inl, inr}
use mad_devs_note_taker.Models.{
  Note, Text, ReminderRule, ReminderDelivery, is_open, is_cancelled, is_claimed, is_attempt_started,
}
use mad_devs_note_taker.Storage.{IsStorable, is_storable}
use mad_devs_note_taker.Email.{Email, Outcome, accepted, interrupted, refused}
use mad_devs_note_taker.Reminders.{fresh_delivery, cancel_delivery, reopen_delivery}
use mad_devs_note_taker.Jobs.Claim.{miss_delivery, lease_delivery}
use mad_devs_note_taker.Jobs.Authorize.{release_delivery, start_attempt}
use mad_devs_note_taker.Jobs.Deliver.{
  finish_attempt, error_of, unknown_of, valid_recipient, lose_attempt,
}
use mad_devs_note_taker.Api.Series.Create.{first_delivery}

module _ (d : ReminderDelivery) (h : IsStorable d) where
  pub cancel-IsStorable : (now : ℕ) → is_open d.state ≡ true → IsStorable (cancel_delivery now d)
  unfolding is_storable
  cancel-IsStorable now o = let k = h.accepted in record { accepted = ground arith }

  pub miss-IsStorable : (now : ℕ) → is_open d.state ≡ true → IsStorable (miss_delivery now d)
  unfolding is_storable
  miss-IsStorable now o = let k = h.accepted in record { accepted = ground arith }

  pub lease-IsStorable :
      (token expires : ℕ) → is_open d.state ≡ true → IsStorable (lease_delivery token expires d)
  unfolding is_storable
  lease-IsStorable token expires o = let k = h.accepted in record { accepted = ground arith }

  pub reopen-IsStorable :
      (is_open d.state || is_cancelled d.state) ≡ true → IsStorable (reopen_delivery d)
  unfolding is_storable
  reopen-IsStorable o = let k = h.accepted in record { accepted = ground arith }

  pub release-IsStorable : is_claimed d.state ≡ true → IsStorable (release_delivery d)
  unfolding is_storable
  release-IsStorable o = let k = h.accepted in record { accepted = ground arith }

  pub start-IsStorable :
      (now : ℕ) (recipient : Text) (note : Note)
      → is_claimed d.state ≡ true
      → IsStorable (start_attempt now recipient note d)
  unfolding is_storable
  start-IsStorable now recipient note o = let k = h.accepted in record { accepted = ground arith }

  -- Whatever the sender reports, the row of a finished attempt is one.
  pub finish-IsStorable :
      (email : Email) (outcome : Outcome) (finished_at : ℕ)
      → is_attempt_started d.state ≡ true
      → IsStorable
          (finish_attempt (unknown_of email outcome) (error_of email outcome) finished_at d)
  unfolding is_storable error_of
  finish-IsStorable email outcome finished_at o =
      let k = h.accepted in
      elim (Bool-cases (valid_recipient email.recipient)) [
        | inl v ↦ rw v (elim outcome [
          | accepted ↦ record { accepted = ground arith }
          | interrupted ↦ record { accepted = ground arith }
          | refused ↦ record { accepted = ground arith }
        ])
        | inr v ↦ rw v (record { accepted = ground arith })
      ]

  pub lose-IsStorable :
      (now : ℕ) → is_attempt_started d.state ≡ true → IsStorable (lose_attempt now d)
  unfolding is_storable
  lose-IsStorable now o = let k = h.accepted in record { accepted = ground arith }

pub fresh-IsStorable :
    (id : ℕ) (note : Note) (rule : ReminderRule) (deadline now : ℕ)
    → IsStorable (fresh_delivery id note rule deadline now)
unfolding is_storable
fresh-IsStorable id note rule deadline now = record { accepted = ground arith }

pub first-IsStorable :
    (id rule_id deadline now : ℕ) (active : Bool)
    → IsStorable (first_delivery id rule_id deadline active now)
unfolding is_storable
first-IsStorable id rule_id deadline now active = record { accepted = ground arith }
