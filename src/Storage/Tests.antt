-- ===== src/Storage/Tests.antt =====
-- The storage contract on sample rows.
use mad_devs_note_taker.Base.{◌*◌, ◌&&◌, ◌||◌, ◌≡◌, refl, some, none, is_none, [], ◌∷◌}
use mad_devs_note_taker.Models.{Db, DeliveryState}
use mad_devs_note_taker.Fixtures.{sample_note, sample_delivery, sample_db, series_db, first_key}
use mad_devs_note_taker.Session.{day}
use mad_devs_note_taker.Session.Rules.{IfReturns}
use mad_devs_note_taker.Schemas.{SeriesPortionRequest}
use mad_devs_note_taker.Storage.{is_storable, is_storable_event}
use mad_devs_note_taker.Storage.Upgrade.{OlderDelivery, OlderEvent, upgrade_delivery, upgrade_event}
use mad_devs_note_taker.Storage.Upgrade.Accepted.{
  keeps_shape, upgrade_delivery-accepted, upgrade_event-accepted,
}
use mad_devs_note_taker.Storage.Repair.{repair}
use mad_devs_note_taker.Storage.Repair.Settled.{IsSettled, repair-IsSettled}
use mad_devs_note_taker.Storage.Triggers.Trashed.{IsSealed, trash_series_portion-IsSealed}
use mad_devs_note_taker.Jobs.Authorize.{notification_event}
use mad_devs_note_taker.Api.Series.Trash.{trash_series_portion}

-- A claim that was never given an end, with a snapshot that it should not have.
abbrev older_delivery : OlderDelivery
older_delivery = record {
  row = record sample_delivery {
    state = DeliveryState.claimed;
    claim_token = some 7;
    recipient_snapshot = some [];
  };
  error = some "timeout";
  updated_at = none;
}

upgrade_delivery-accepted_example :
    is_storable (upgrade_delivery (10 * day) older_delivery)
    ≡ keeps_shape DeliveryState.claimed older_delivery.row
upgrade_delivery-accepted_example = upgrade_delivery-accepted (10 * day) older_delivery

abbrev older_event : OlderEvent
older_event = record {
  event = notification_event 8 9 (10 * day) (10 * day) none;
  last_error = some "refused";
}

upgrade_event-accepted_example : is_storable_event (upgrade_event older_event) ≡ (
    is_none older_event.event.published_at
    || (is_none older_event.event.next_attempt_at && is_none older_event.last_error))
upgrade_event-accepted_example = upgrade_event-accepted older_event

-- The sample note, superseded and still accessible, with its delivery pending.
abbrev ghost_db : Db
ghost_db = record sample_db { notes = record sample_note { superseded_at = some (9 * day) } ∷ [] }

repair-IsSettled_example : IsSettled (repair (10 * day) ghost_db)
repair-IsSettled_example = repair-IsSettled (10 * day) ghost_db

abbrev whole_series : SeriesPortionRequest
whole_series = record { recurrence_key = some first_key; series_version = 1 }

trash_series_portion-IsSealed_example :
    IfReturns (λ _ t. IsSealed 30 t) (trash_series_portion 20 whole_series series_db)
trash_series_portion-IsSealed_example =
    trash_series_portion-IsSealed 20 whole_series series_db
      (record { keys = (tt, tt); holders = (refl, tt); members = tt })
