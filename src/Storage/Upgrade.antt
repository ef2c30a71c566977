-- ===== src/Storage/Upgrade.antt =====
-- The repair of the older rows of `reminder_deliveries` by `upgrade` of
-- backend/migrations/versions/0004_storage_contract.py, before its check constraints are created.
pub mod Accepted
use mad_devs_note_taker.Base.{
  ℕ, Bool, true, false, ◌&&◌, ◌||◌, not, if◌then◌else◌, Option, some, none, is_some, is_none,
  String,
}
use mad_devs_note_taker.Models.{
  ReminderDelivery, DeliveryState, is_pending, is_claimed, OutboxEvent,
}

-- A row of the older table: `error_code` was added empty, and the column `error` is dropped on the way.
-- `updated_at` comes from the table's mixin.
pub record OlderDelivery : Type 0 where
  pub row : ReminderDelivery
  pub error : Option String
  pub updated_at : Option ℕ

abbrev pub is_failed : DeliveryState → Bool
is_failed DeliveryState.failed = true
is_failed _ = false

abbrev pub is_unknown : DeliveryState → Bool
is_unknown DeliveryState.unknown = true
is_unknown _ = false

abbrev pub is_missed_or_cancelled : DeliveryState → Bool
is_missed_or_cancelled DeliveryState.missed = true
is_missed_or_cancelled DeliveryState.cancelled = true
is_missed_or_cancelled _ = false

-- The first UPDATE: a code in the place of the error's text.
unfoldable pub code_error : OlderDelivery → ReminderDelivery
code_error d = record d.row {
  error_code =
      if is_failed d.row.state && is_some d.error
      then some "delivery_failed_legacy"
      else if is_unknown d.row.state && is_some d.error
      then some "delivery_outcome_unknown_legacy"
      else none;
}

-- `COALESCE(result_at, updated_at, clock_timestamp())`
abbrev pub coalesce : Option ℕ → Option ℕ → ℕ → ℕ
coalesce (some a) b now = a
coalesce none (some b) now = b
coalesce none none now = now

abbrev pub cleared : ReminderDelivery → ReminderDelivery
cleared d = record d {
  claim_token = none;
  claim_expires_at = none;
  authorized_at = none;
  recipient_snapshot = none;
  content_snapshot = none;
  result_at = none;
  error_code = none;
}

-- The UPDATEs by state, in their order.
unfoldable pub clear_pending : ReminderDelivery → ReminderDelivery
clear_pending d = if is_pending d.state then cleared d else d

unfoldable pub release_unowned : ReminderDelivery → ReminderDelivery
release_unowned d =
    if is_claimed d.state && (is_none d.claim_token || is_none d.claim_expires_at)
    then record (cleared d) { state = DeliveryState.pending }
    else d

unfoldable pub clear_ended : Option ℕ → ℕ → ReminderDelivery → ReminderDelivery
clear_ended updated_at now d =
    if is_missed_or_cancelled d.state
    then record (cleared d) { result_at = some (coalesce d.result_at updated_at now) }
    else d

unfoldable pub code_failed : ReminderDelivery → ReminderDelivery
code_failed d =
    if is_failed d.state && is_none d.error_code
    then record d { error_code = some "delivery_failed_legacy" }
    else d

unfoldable pub code_unknown : ReminderDelivery → ReminderDelivery
code_unknown d =
    if is_unknown d.state && is_none d.error_code
    then record d { error_code = some "delivery_outcome_unknown_legacy" }
    else d

unfoldable pub upgrade_delivery : ℕ → OlderDelivery → ReminderDelivery
upgrade_delivery now d =
    code_unknown
      (code_failed (clear_ended d.updated_at now (release_unowned (clear_pending (code_error d)))))

-- A row of the older `outbox_events`: the text `last_error` gives way to a code.
pub record OlderEvent : Type 0 where
  pub event : OutboxEvent
  pub last_error : Option String

unfoldable pub upgrade_event : OlderEvent → OutboxEvent
upgrade_event e = record e.event {
  error_code = if is_some e.last_error then some "outbox_publish_failed_legacy" else none;
}
