-- ===== src/Jobs/Authorize.antt =====
-- The final authorization of a claimed delivery: `authorize_delivery` of backend/app/jobs/reminders.py.
pub mod Sends
mod Tests
use mad_devs_note_taker.Base.{
  ℕ, ◌*◌, Bool, true, false, ◌&&◌, ◌||◌, not, if◌then◌else◌, ltb, ◌==◌, opt_eq, Option, some, none,
  is_some, is_none, List, [], ◌∷◌, ◌++◌, select, find_first, String,
}
use mad_devs_note_taker.Base.Tables.{update_where}
use mad_devs_note_taker.Base.Results.{ok, err}
use mad_devs_note_taker.Base.Text.{strip, codes}
use mad_devs_note_taker.Models.{
  Db, Text, Note, ReminderRule, ReminderDelivery, Notification, OutboxEvent, Payload,
  RecurrenceSeries, UserSettings, DeliveryState, is_claimed,
}
use mad_devs_note_taker.Email.{Email}
use mad_devs_note_taker.Session.{
  M, ◌>>=◌, ◌>>◌, pure, lift, gets, modify, one, one_or_none, minus, second, uuid4,
}
use mad_devs_note_taker.Reminders.{write_delivery, cancel_delivery, is_live}
use mad_devs_note_taker.Jobs.Claim.{miss_delivery}

abbrev pub profile_id : ℕ
profile_id = 1

-- The identifiers that the join of delivery, rule and note gives.
pub record Ids : Type 0 where
  pub rule_id : ℕ
  pub note_id : ℕ
  pub series_id : Option ℕ

unfoldable pub delivery_ids : ℕ → Db → Option Ids
delivery_ids delivery_id s =
    elim (find_first (λ (d : ReminderDelivery). d.id == delivery_id) s.deliveries) [
      | none ↦ none
      | some d ↦ elim (find_first (λ (r : ReminderRule). r.id == d.reminder_rule_id) s.rules) [
        | none ↦ none
        | some r ↦ elim (find_first (λ (n : Note). n.id == r.note_id) s.notes) [
          | none ↦ none
          | some n ↦ some (record { rule_id = r.id; note_id = n.id; series_id = n.series_id })
        ]
      ]
    ]

abbrev pub notification_created : String
notification_created = "notification.created"

-- The OutboxEvent of a notification.
abbrev pub notification_event : ℕ → ℕ → ℕ → ℕ → Option ℕ → OutboxEvent
notification_event event_id notification_id now created_at series_id = record {
  id = event_id;
  event_type = notification_created;
  entity_id = notification_id;
  payload = record {
    event_id = event_id;
    type = notification_created;
    occurred_at = now;
    entity_id = notification_id;
    notification_id = some notification_id;
    version = 1;
    series_id = series_id;
  };
  created_at = created_at;
  published_at = none;
  attempts = 0;
  next_attempt_at = none;
  error_code = none;
}

abbrev pub is_stale : ReminderRule → Note → ReminderDelivery → Bool
is_stale rule note delivery =
    not rule.enabled
    || not (rule.current_cycle_number == delivery.cycle_number)
    || not (is_live note)

-- Back to pending: it is not due yet.
abbrev pub release_delivery : ReminderDelivery → ReminderDelivery
release_delivery d = record d {
  state = DeliveryState.pending;
  claim_token = none;
  claim_expires_at = none;
}

-- From here on the delivery is attempted, and never again.
abbrev pub start_attempt : ℕ → Text → Note → ReminderDelivery → ReminderDelivery
start_attempt now recipient note d = record d {
  state = DeliveryState.attempt_started;
  authorized_at = some now;
  claim_expires_at = none;
  recipient_snapshot = some recipient;
  content_snapshot = some (record { title = note.title; body = note.body; note_id = note.id });
}

abbrev pub recipient_of : Text → Option UserSettings → Text
recipient_of default_email none = strip default_email
recipient_of default_email (some settings) = strip settings.email

-- The notification of an attempt with its event, and the message.
unfoldable pub notify : ℕ → Text → Ids → Note → ReminderDelivery → M (Option Email)
notify now recipient ids note delivery = do
  notification_id ← uuid4
  modify (λ s. record s {
    notifications =
        s.notifications
        ++ record {
          id = notification_id;
          reminder_delivery_id = delivery.id;
          scheduled_at = delivery.due_at;
          created_at = s.server_now;
          title = note.title;
          body = note.body;
        }
          ∷ [];
  })
  event_id ← uuid4
  modify (λ s. record s {
    outbox =
        s.outbox ++ notification_event event_id notification_id now s.server_now ids.series_id ∷ [];
  })
  pure (
      some (record {
        recipient = recipient;
        subject = codes "Reminder: " ++ note.title;
        body = note.body;
        message_id = (delivery.id, delivery.cycle_number);
      }))

-- The message and the rows that go with an authorized attempt.
unfoldable pub authorize : ℕ → Text → Ids → Note → ReminderDelivery → M (Option Email)
authorize now default_email ids note delivery = do
  settings ←
      λ s. lift (one_or_none (select (λ (u : UserSettings). u.id == profile_id) s.user_settings)) s
  write_delivery delivery.id (start_attempt now (recipient_of default_email settings) note)
  notify now (recipient_of default_email settings) ids note delivery

-- The checks on the locked rows.
unfoldable pub check_delivery :
    ℕ → ℕ → ℕ → Text → Ids → Note → ReminderRule → ReminderDelivery → M (Option Email)
check_delivery token now grace_seconds default_email ids note rule delivery =
    if not (is_claimed delivery.state) || not (opt_eq delivery.claim_token token)
    then pure none
    else if is_stale rule note delivery
    then (do write_delivery delivery.id (cancel_delivery now); pure none)
    else if ltb now delivery.due_at
    then (do write_delivery delivery.id release_delivery; pure none)
    else (do
      cutoff ← lift (minus now (grace_seconds * second))
      if ltb delivery.due_at cutoff
          then (do write_delivery delivery.id (miss_delivery now); pure none)
          else authorize now default_email ids note delivery)

-- `.one()` on the series of a recurring note.
unfoldable pub lock_series : Option ℕ → M (Unit {0})
lock_series none = pure tt
lock_series (some id) = do
  row ← λ s. lift (one (select (λ (r : RecurrenceSeries). r.id == id) s.recurrence_series)) s
  pure tt

-- The delivery again, under its lock.
unfoldable pub check_found : ℕ → ℕ → ℕ → ℕ → Text → Ids → Note → ReminderRule → M (Option Email)
check_found delivery_id token now grace_seconds default_email ids note rule = do
  delivery ← λ s. lift (one (select (λ (d : ReminderDelivery). d.id == delivery_id) s.deliveries)) s
  check_delivery token now grace_seconds default_email ids note rule delivery

-- After the identifiers are known: lock, read again, check. Other transactions may have committed since.
unfoldable pub authorize_locked : ℕ → ℕ → ℕ → ℕ → Text → Ids → M (Option Email)
authorize_locked delivery_id token now grace_seconds default_email ids = do
  lock_series ids.series_id
  note ← λ s. lift (one (select (λ (n : Note). n.id == ids.note_id) s.notes)) s
  rule ← λ s. lift (one (select (λ (r : ReminderRule). r.id == ids.rule_id) s.rules)) s
  check_found delivery_id token now grace_seconds default_email ids note rule

abbrev pub with_ids : (Ids → M (Option Email)) → Option Ids → M (Option Email)
with_ids f none = pure none
with_ids f (some ids) = f ids

unfoldable pub authorize_delivery : ℕ → ℕ → ℕ → ℕ → Text → M (Option Email)
authorize_delivery delivery_id token now grace_seconds default_email = do
  ids ← gets (delivery_ids delivery_id)
  with_ids (authorize_locked delivery_id token now grace_seconds default_email) ids
