-- ===== src/System/Jobs/Sends.antt =====
-- Sending keeps the constraints.
use mad_devs_note_taker.Base.{
  ℕ, ◌*◌, ◌≡◌, refl, true, if◌then◌else◌, ◌||◌, not, ltb, ◌==◌, opt_eq, Option, some, none, select,
  Bool-cases, inl, inr, arith,
}
use mad_devs_note_taker.Base.Apart.{Member}
use mad_devs_note_taker.Models.{
  Db, UserSettings, Text, Note, ReminderRule, ReminderDelivery, is_open, is_claimed,
}
use mad_devs_note_taker.Session.{one, one_or_none, ◌>>◌, pure, minus, second}
use mad_devs_note_taker.Session.Rules.{IfReturns, IfReturns-read}
use mad_devs_note_taker.Storage.{IsStorableEvent, is_storable_event}
use mad_devs_note_taker.Storage.Rows.{
  cancel-IsStorable, miss-IsStorable, release-IsStorable, start-IsStorable,
}
use mad_devs_note_taker.Reminders.{write_delivery, cancel_delivery}
use mad_devs_note_taker.Jobs.Claim.{miss_delivery}
use mad_devs_note_taker.Reminders.Round.{cancel-Later}
use mad_devs_note_taker.System.Keeps.{
  IsStored, Onward, Onward-refl, Keeps, Keeps-pure, keeps_rules, delivery_id,
}
use mad_devs_note_taker.System.Effects.{write-Onward, Keeps-bind_read, Keeps-emit_then, Onward-bind}
use mad_devs_note_taker.Session.Found.{one-found}
use mad_devs_note_taker.System.Jobs.{open-Later}
use mad_devs_note_taker.Jobs.Authorize.{
  Ids, authorize_delivery, authorize_locked, with_ids, check_delivery, authorize, notify, is_stale,
  start_attempt, release_delivery, recipient_of, lock_series, check_found, notification_event,
  profile_id,
}

pub notification_event-IsStorableEvent :
    (event_id notification_id now created_at : ℕ) (series_id : Option ℕ)
    → IsStorableEvent (notification_event event_id notification_id now created_at series_id)
unfolding is_storable_event
notification_event-IsStorableEvent event_id notification_id now created_at series_id = record {
  accepted = refl;
}

Keeps-notify :
    (now : ℕ) (recipient : Text) (ids : Ids) (note : Note) (d : ReminderDelivery)
    → Keeps (notify now recipient ids note d)
unfolding notify
Keeps-notify now recipient ids note d =
    search (keeps_rules, Keeps-emit_then, notification_event-IsStorableEvent)

-- The claim of a delivery ends in one of four ways.
module _ (token now grace_seconds : ℕ) (default_email : Text) (ids : Ids) (note : Note)
    (rule : ReminderRule) (d : ReminderDelivery) (s : Db) (h : IsStored s)
    (m : Member d s.deliveries) where
  authorize-Onward :
      is_claimed d.state ≡ true
      → IfReturns (λ _ t. Onward s t) (authorize now default_email ids note d s)
  unfolding authorize
  authorize-Onward c =
      IfReturns-read (λ _ t. Onward s t)
        (one_or_none (select (λ (u : UserSettings). u.id == profile_id) s.user_settings)) _ s
        (λ settings _.
          Onward-bind
            (write_delivery d.id (start_attempt now (recipient_of default_email settings) note)) _ s
            (write-Onward (start_attempt now (recipient_of default_email settings) note) d s h
              (λ x. refl) m (open-Later d _ (ground (arith, c)) refl refl refl refl)
              (λ k. start-IsStorable d k now (recipient_of default_email settings) note c))
            (λ _. Keeps-notify now (recipient_of default_email settings) ids note d))

  pub check_delivery-Onward :
      IfReturns
        (λ _ t. Onward s t)
        (check_delivery token now grace_seconds default_email ids note rule d s)
  unfolding check_delivery
  check_delivery-Onward =
      elim (Bool-cases (not (is_claimed d.state) || not (opt_eq d.claim_token token))) [
        | inl e ↦ rw e (Onward-refl s h)
        | inr a ↦
            let c : is_claimed d.state ≡ true = ground (arith, a) in
            let o : is_open d.state ≡ true = ground (arith, c) in
            rw a (elim (Bool-cases (is_stale rule note d)) [
              | inl e ↦ rw e (
                  Onward-bind (write_delivery d.id (cancel_delivery now)) _ s
                    (write-Onward (cancel_delivery now) d s h (λ x. refl) m (cancel-Later now d o)
                      (λ k. cancel-IsStorable d k now o))
                    (λ _. Keeps-pure none))
              | inr b ↦ rw b (elim (Bool-cases (ltb now d.due_at)) [
                | inl e ↦ rw e (
                    Onward-bind (write_delivery d.id release_delivery) _ s
                      (write-Onward release_delivery d s h (λ x. refl) m
                        (open-Later d (release_delivery d) o refl refl refl refl)
                        (λ k. release-IsStorable d k c))
                      (λ _. Keeps-pure none))
                | inr e ↦ rw e (
                    IfReturns-read (λ _ t. Onward s t) (minus now (grace_seconds * second)) _ s
                      (λ cutoff _. attempt cutoff c o))
              ])
            ])
      ]
    where
      attempt :
          (cutoff : ℕ)
          → is_claimed d.state ≡ true
          → is_open d.state ≡ true
          → IfReturns
              (λ _ t. Onward s t)
              ((if ltb d.due_at cutoff
                  then write_delivery d.id (miss_delivery now) >> pure none
                  else authorize now default_email ids note d)
                s)
      attempt cutoff c o = elim (Bool-cases (ltb d.due_at cutoff)) [
        | inl e ↦ rw e (
            Onward-bind (write_delivery d.id (miss_delivery now)) _ s
              (write-Onward (miss_delivery now) d s h (λ x. refl) m
                (open-Later d (miss_delivery now d) o refl refl refl refl)
                (λ k. miss-IsStorable d k now o))
              (λ _. Keeps-pure none))
        | inr e ↦ rw e (authorize-Onward c)
      ]

Keeps-lock_series : (o : Option ℕ) → Keeps (lock_series o)
unfolding lock_series
Keeps-lock_series none = search (keeps_rules)
Keeps-lock_series (some id) = search (keeps_rules)

Keeps-check_found :
    (delivery_id token now grace_seconds : ℕ) (default_email : Text) (ids : Ids) (note : Note)
    (rule : ReminderRule)
    → Keeps (check_found delivery_id token now grace_seconds default_email ids note rule)
unfolding check_found
Keeps-check_found delivery_id token now grace_seconds default_email ids note rule =
    Keeps-bind_read (λ s. one (select (λ (d : ReminderDelivery). d.id == delivery_id) s.deliveries))
      _
      (λ d s e h.
        check_delivery-Onward token now grace_seconds default_email ids note rule d s h
          (one-found (λ (x : ReminderDelivery). x.id == delivery_id) d s.deliveries e).0)

pub Keeps-authorize_delivery :
    (delivery_id token now grace_seconds : ℕ) (default_email : Text)
    → Keeps (authorize_delivery delivery_id token now grace_seconds default_email)
unfolding authorize_delivery authorize_locked
Keeps-authorize_delivery delivery_id token now grace_seconds default_email =
    search (keeps_rules, locked)
  where
    locked :
        (o : Option Ids)
        → Keeps (with_ids (authorize_locked delivery_id token now grace_seconds default_email) o)
    locked none = search (keeps_rules)
    locked (some ids) = search (keeps_rules, Keeps-lock_series, Keeps-check_found) depth 10
