-- ===== src/Storage/Upgrade/Accepted.antt =====
-- Which older rows the check constraints accept once they are repaired.
use mad_devs_note_taker.Base.{
  ℕ, Bool, true, ◌&&◌, ◌||◌, Option, some, none, String, ◌≡◌, refl, is_some, is_none, arith,
}
use mad_devs_note_taker.Models.{ReminderDelivery, DeliveryState}
use mad_devs_note_taker.Storage.{is_storable, is_storable_event, has_snapshot, has_no_snapshot}
use mad_devs_note_taker.Storage.Upgrade.{
  OlderDelivery, code_error, clear_pending, release_unowned, clear_ended, code_failed, code_unknown,
  upgrade_delivery, OlderEvent, upgrade_event,
}

-- What an older row must have by itself: the repair mends pending, missed and cancelled rows whatever they
-- hold, and gives up a claim without owner or end.
abbrev pub keeps_shape : DeliveryState → ReminderDelivery → Bool
keeps_shape DeliveryState.claimed d =
    is_none d.claim_token
    || is_none d.claim_expires_at
    || (is_none d.authorized_at && has_no_snapshot d && is_none d.result_at)
keeps_shape DeliveryState.attempt_started d =
    is_some d.claim_token
    && is_none d.claim_expires_at
    && is_some d.authorized_at
    && has_snapshot d
    && is_none d.result_at
keeps_shape DeliveryState.pending d = true
keeps_shape DeliveryState.missed d = true
keeps_shape DeliveryState.cancelled d = true
keeps_shape _ d =
    is_some d.claim_token
    && is_none d.claim_expires_at
    && is_some d.authorized_at
    && (has_snapshot d || has_no_snapshot d)
    && is_some d.result_at

in_state :
    (now : ℕ) (state : DeliveryState) (r : ReminderDelivery) (e : Option String) (u : Option ℕ)
    → is_storable (
        upgrade_delivery now
          (record { row = record r { state = state }; error = e; updated_at = u }))
      ≡ keeps_shape state r
unfolding is_storable upgrade_delivery code_error clear_pending release_unowned clear_ended
    code_failed code_unknown
in_state now DeliveryState.pending r e u = refl
in_state now DeliveryState.claimed r e u = ground arith
in_state now DeliveryState.attempt_started r e u = ground arith
in_state now DeliveryState.sent r e u = ground arith
in_state now DeliveryState.failed r none u = ground arith
in_state now DeliveryState.failed r (some text) u = ground arith
in_state now DeliveryState.unknown r none u = ground arith
in_state now DeliveryState.unknown r (some text) u = ground arith
in_state now DeliveryState.missed r e u = refl
in_state now DeliveryState.cancelled r e u = refl

-- The repaired row passes the checks on deliveries if and only if the older row had this shape.
pub upgrade_delivery-accepted :
    (now : ℕ) (d : OlderDelivery)
    → is_storable (upgrade_delivery now d) ≡ keeps_shape d.row.state d.row
upgrade_delivery-accepted now d = in_state now d.row.state d.row d.error d.updated_at

-- The repaired event passes the checks if and only if it is unpublished, or has no next attempt and no error.
pub upgrade_event-accepted :
    (e : OlderEvent)
    → is_storable_event (upgrade_event e)
      ≡ (is_none e.event.published_at || (is_none e.event.next_attempt_at && is_none e.last_error))
unfolding is_storable_event upgrade_event
upgrade_event-accepted e = ground arith
