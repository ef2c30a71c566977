-- ===== src/Storage.antt =====
-- The storage contract of backend/migrations/versions/0004_storage_contract.py: the check constraints on
-- deliveries and events. The triggers and the repair of older rows are in the modules below.
pub mod Rows
pub mod Upgrade
pub mod Repair
pub mod Triggers
mod Tests
use mad_devs_note_taker.Base.{
  Bool, true, false, ◌&&◌, ◌||◌, not, Option, some, none, is_some, is_none, String, ◌≡◌, List, [],
  ◌∷◌, any,
}
use mad_devs_note_taker.Base.Text.{codes, text_eq}
use mad_devs_note_taker.Models.{ReminderDelivery, DeliveryState, OutboxEvent}

-- `error_code IN (...)`; NULL is allowed.
abbrev pub is_listed : List String → Option String → Bool
is_listed allowed none = true
is_listed allowed (some e) = any (λ (a : String). text_eq (codes e) (codes a)) allowed

abbrev pub delivery_errors : List String
delivery_errors =
    "invalid_recipient" ∷ "smtp_send_failed" ∷ "smtp_outcome_unknown" ∷ "worker_outcome_unknown"
    ∷ "delivery_failed_legacy" ∷ "delivery_outcome_unknown_legacy" ∷ []

abbrev pub has_no_snapshot : ReminderDelivery → Bool
has_no_snapshot d = is_none d.recipient_snapshot && is_none d.content_snapshot

abbrev pub has_snapshot : ReminderDelivery → Bool
has_snapshot d = is_some d.recipient_snapshot && is_some d.content_snapshot

-- The arms of the check for a result, without a claim or with one.
abbrev pub is_unclaimed : ReminderDelivery → Bool
is_unclaimed d =
    is_none d.claim_token
    && is_none d.claim_expires_at
    && is_none d.authorized_at
    && has_no_snapshot d
    && is_none d.error_code

abbrev pub is_attempted : ReminderDelivery → Bool
is_attempted d =
    is_some d.claim_token
    && is_none d.claim_expires_at
    && is_some d.authorized_at
    && (has_snapshot d || has_no_snapshot d)
    && is_some d.result_at

-- `ck_delivery_state_shape`, by the state.
abbrev pub state_shape : DeliveryState → ReminderDelivery → Bool
state_shape DeliveryState.pending d = is_unclaimed d && is_none d.result_at
state_shape DeliveryState.claimed d =
    is_some d.claim_token
    && is_some d.claim_expires_at
    && is_none d.authorized_at
    && has_no_snapshot d
    && is_none d.result_at
    && is_none d.error_code
state_shape DeliveryState.attempt_started d =
    is_some d.claim_token
    && is_none d.claim_expires_at
    && is_some d.authorized_at
    && has_snapshot d
    && is_none d.result_at
    && is_none d.error_code
state_shape DeliveryState.sent d = is_attempted d && is_none d.error_code
state_shape DeliveryState.failed d = is_attempted d && is_some d.error_code
state_shape DeliveryState.unknown d = is_attempted d && is_some d.error_code
state_shape DeliveryState.missed d = is_unclaimed d && is_some d.result_at
state_shape DeliveryState.cancelled d = is_unclaimed d && is_some d.result_at

-- The two checks of a row of `reminder_deliveries`.
unfoldable pub is_storable : ReminderDelivery → Bool
is_storable d = state_shape d.state d && is_listed delivery_errors d.error_code

abbrev pub outbox_errors : List String
outbox_errors = "outbox_publish_failed" ∷ "outbox_publish_failed_legacy" ∷ []

-- `ck_outbox_state_shape` and `ck_outbox_error_code_allowlist`.
unfoldable pub is_storable_event : OutboxEvent → Bool
is_storable_event e =
    (is_none e.published_at || (is_none e.next_attempt_at && is_none e.error_code))
    && is_listed outbox_errors e.error_code

-- The rows that the checks accept.
pub record IsStorable (d : ReminderDelivery) : Type 0 where
  pub accepted : is_storable d ≡ true

pub record IsStorableEvent (e : OutboxEvent) : Type 0 where
  pub accepted : is_storable_event e ≡ true
