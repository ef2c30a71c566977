-- ===== src/Jobs/Authorize/Tests.antt =====
-- Authorizing the sample delivery.
use mad_devs_note_taker.Base.{◌*◌, some, none}
use mad_devs_note_taker.Base.Text.{codes}
use mad_devs_note_taker.Models.{ReminderDelivery, DeliveryState}
use mad_devs_note_taker.Session.{day}
use mad_devs_note_taker.Fixtures.{sample_db, sample_note, sample_rule, sample_delivery}
use mad_devs_note_taker.Jobs.Authorize.{Ids, check_delivery}
use mad_devs_note_taker.Session.Rules.{IfReturns}
use mad_devs_note_taker.Jobs.Authorize.Sends.{IsChecked, check_delivery-IsChecked}

abbrev claimed_delivery : ReminderDelivery
claimed_delivery = record sample_delivery { state = DeliveryState.claimed; claim_token = some 7 }

abbrev sample_ids : Ids
sample_ids = record { rule_id = 2; note_id = 1; series_id = none }

check_delivery-IsChecked_example :
    IfReturns (IsChecked 7 (10 * day) 900 sample_rule sample_note claimed_delivery sample_db) (
      check_delivery 7
        (10 * day)
        900
        (codes "a@b.c")
        sample_ids
        sample_note
        sample_rule
        claimed_delivery
        sample_db)
check_delivery-IsChecked_example =
    check_delivery-IsChecked 7 (10 * day) 900 (codes "a@b.c") sample_ids sample_rule sample_note
      claimed_delivery sample_db
