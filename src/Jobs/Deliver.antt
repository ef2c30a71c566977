-- ===== src/Jobs/Deliver.antt =====
-- Sending: `deliver`, `_valid_recipient`, `_record_visible_email_failure` and `classify_unknown` of
-- backend/app/jobs/reminders.py.
--
-- `deliver` is two transactions with the SMTP call between them; what other transactions commit
-- meanwhile is its argument `between`.
use mad_devs_note_taker.Base.{
  ℕ, ◌*◌, Bool, true, false, ◌&&◌, ◌||◌, not, if◌then◌else◌, ltb, leb, ◌==◌, opt_lt, Option, some,
  none, is_none, List, [], ◌∷◌, ◌++◌, select, take, length, any, String,
}
use mad_devs_note_taker.Base.Tables.{update_where, order_by}
use mad_devs_note_taker.Base.Text.{strip, codes, is_space, is_empty, partition, starts_with}
use mad_devs_note_taker.Models.{
  Db, Text, ReminderDelivery, Notification, DeliveryState, is_attempt_started,
}
use mad_devs_note_taker.Email.{Email, Outcome, accepted, interrupted, refused}
use mad_devs_note_taker.Base.Results.{ok}
use mad_devs_note_taker.Session.{
  M, Job, commit, done, ◌>>=◌, ◌>>◌, pure, lift, gets, modify, when, for_each, one, minus, second,
  uuid4, utcnow,
}
use mad_devs_note_taker.Reminders.{write_delivery}
use mad_devs_note_taker.Jobs.Authorize.{authorize_delivery, notification_event}

unfoldable pub valid_recipient : Text → Bool
valid_recipient recipient =
    let (local, separator, domain) = partition b'@' (strip recipient) in
    not (is_empty local) && separator && not (is_empty domain) && not (any is_space recipient)

-- `_ambiguous_smtp_error`: the server may have accepted the message.
abbrev pub is_unknown : Outcome → Bool
is_unknown interrupted = true
is_unknown _ = false

unfoldable pub error_of : Email → Outcome → Option String
unfolding valid_recipient
error_of email outcome =
    if not (valid_recipient email.recipient) then some "invalid_recipient" else elim outcome [
      | accepted ↦ none
      | interrupted ↦ some "smtp_outcome_unknown"
      | refused ↦ some "smtp_send_failed"
    ]

-- The sender is called only for a valid recipient.
abbrev pub unknown_of : Email → Outcome → Bool
unknown_of email outcome = valid_recipient email.recipient && is_unknown outcome

abbrev pub failure_prefix : Bool → Text
failure_prefix true = codes "[Email outcome unknown] "
failure_prefix false = codes "[Email failed] "

abbrev pub mark_title : Bool → Notification → Notification
mark_title unknown n =
    if starts_with n.title (failure_prefix unknown)
    then n
    else record n { title = take 255 (failure_prefix unknown ++ n.title) }

unfoldable pub record_visible_email_failure : ℕ → ℕ → Bool → M (Unit {0})
record_visible_email_failure delivery_id now unknown = do
  notification ← λ s.
      lift
        (one (select (λ (n : Notification). n.reminder_delivery_id == delivery_id) s.notifications))
        s
  modify (λ s. record s {
    notifications =
        update_where (λ (n : Notification). n.id == notification.id) (mark_title unknown)
          s.notifications;
  })
  event_id ← uuid4
  modify (λ s. record s {
    outbox = s.outbox ++ notification_event event_id notification.id now s.server_now none ∷ [];
  })

abbrev pub final_state : Bool → Option String → DeliveryState
final_state true error_code = DeliveryState.unknown
final_state false (some e) = DeliveryState.failed
final_state false none = DeliveryState.sent

abbrev pub finish_attempt : Bool → Option String → ℕ → ReminderDelivery → ReminderDelivery
finish_attempt unknown error_code finished_at d = record d {
  state = final_state unknown error_code;
  error_code = error_code;
  result_at = some finished_at;
}

abbrev pub report_failure : Option String → M (Unit {0}) → M (Unit {0})
report_failure none m = pure tt
report_failure (some e) m = m

-- The outcome of an attempt that stands.
unfoldable pub end_attempt : ReminderDelivery → Bool → Option String → M (Unit {0})
end_attempt row unknown error_code = do
  finished_at ← utcnow
  write_delivery row.id (finish_attempt unknown error_code finished_at)
  report_failure error_code (record_visible_email_failure row.id finished_at unknown)

-- The second transaction: the outcome is written only while the attempt stands.
unfoldable pub record_outcome : ℕ → Bool → Option String → M (Unit {0})
record_outcome delivery_id unknown error_code = do
  row ← λ s. lift (one (select (λ (d : ReminderDelivery). d.id == delivery_id) s.deliveries)) s
  when (is_attempt_started row.state) (end_attempt row unknown error_code)

-- The value of `deliver`, and the message that it handed to the sender.
abbrev pub finish : ℕ → Outcome → (Db → Db) → Option Email → Job (Bool × Option Email)
finish delivery_id outcome between none s = (ok (false, none), s)
finish delivery_id outcome between (some email) s =
    commit (record_outcome delivery_id (unknown_of email outcome) (error_of email outcome))
      (λ _. done (
        is_none (error_of email outcome),
        (if valid_recipient email.recipient then some email else none),
      ))
      (between s)

unfoldable pub deliver : ℕ → ℕ → ℕ → ℕ → Text → Outcome → (Db → Db) → Job (Bool × Option Email)
deliver delivery_id token now grace_seconds default_email outcome between =
    commit (authorize_delivery delivery_id token now grace_seconds default_email)
      (finish delivery_id outcome between)

abbrev pub or_else : Option String → String → Option String
or_else none e = some e
or_else (some e) _ = some e

-- An attempt whose worker never reported.
abbrev pub lose_attempt : ℕ → ReminderDelivery → ReminderDelivery
lose_attempt now d = record d {
  state = DeliveryState.unknown;
  result_at = some now;
  error_code = or_else d.error_code "worker_outcome_unknown";
}

abbrev pub started_before : ReminderDelivery → ReminderDelivery → Bool
started_before a b = elim a.authorized_at [
  | none ↦ is_none b.authorized_at && leb a.id b.id
  | some x ↦ elim b.authorized_at [ none ↦ true | some y ↦ ltb x y || ((x == y) && leb a.id b.id) ]
]

-- Attempts whose worker has not reported since the cutoff.
unfoldable pub lost_rows : (ℕ → Bool) → ℕ → ℕ → Db → List ReminderDelivery
lost_rows locked cutoff limit s = take limit (
    order_by started_before (
      select
        (λ (d : ReminderDelivery).
          is_attempt_started d.state && opt_lt d.authorized_at cutoff && not (locked d.id))
        s.deliveries))

unfoldable pub classify_row : ℕ → ReminderDelivery → M (Unit {0})
classify_row now row = do
  write_delivery row.id (lose_attempt now)
  record_visible_email_failure row.id now true

-- The number of attempts that are given up.
unfoldable pub classify_unknown : (ℕ → Bool) → ℕ → ℕ → ℕ → M ℕ
unfolding lost_rows
classify_unknown locked now older_than_seconds limit = do
  cutoff ← lift (minus now (older_than_seconds * second))
  rows ← gets (lost_rows locked cutoff limit)
  for_each rows (classify_row now)
  pure (length rows)
