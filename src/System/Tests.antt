-- ===== src/System/Tests.antt =====
-- The system on the sample rows: a scan claims the delivery, a worker authorizes it, a second worker with the
-- same claim comes too late, and the outcome is recorded.
use mad_devs_note_taker.Base.{
  ◌*◌, ◌≡◌, refl, true, false, some, [], ◌∷◌, length, List, arith, inl, all,
}
use mad_devs_note_taker.Base.Text.{codes, strip, lstrip, is_space, partition}
use mad_devs_note_taker.Base.Apart.{Evolves}
use mad_devs_note_taker.Models.{Db, ReminderDelivery, DeliveryState}
use mad_devs_note_taker.Fixtures.{utc_only, sample_note, sample_delivery, sample_db}
use mad_devs_note_taker.Schemas.{distinct}
use mad_devs_note_taker.Email.{Email, accepted}
use mad_devs_note_taker.Deliveries.{Later}
use mad_devs_note_taker.Session.{day, one, one_or_none, minus, plus, uuid4, utcnow}
use mad_devs_note_taker.Session.Rules.{IfReturns}
use mad_devs_note_taker.Storage.{is_storable, is_storable_event}
use mad_devs_note_taker.Jobs.Maintenance.{
  purge_trash, is_delivery_of, purge_ids, expired_notes, purge_candidates, action_members,
}
use mad_devs_note_taker.Reminders.{write_delivery}
use mad_devs_note_taker.Jobs.Claim.{claim_due_batch, claim_rows, claim_row, due_rows, is_claimable}
use mad_devs_note_taker.Jobs.Authorize.{
  authorize_delivery, authorize_locked, check_found, check_delivery, authorize, notify, lock_series,
  delivery_ids,
}
use mad_devs_note_taker.Jobs.Deliver.{record_outcome, end_attempt, error_of, valid_recipient}
use mad_devs_note_taker.System.Requests.{Request}
use mad_devs_note_taker.System.Execution.{Settings, System, replay, accepts, run, exec}
use mad_devs_note_taker.System.Keeps.{IsStored, Onward}
use mad_devs_note_taker.System.History.{run-accepts}
use mad_devs_note_taker.System.History.Once.{IsSound, replay-IsSound}
use mad_devs_note_taker.System.Jobs.Purge.{purge_trash-Onward}
use mad_devs_note_taker.System.Jobs.Refused.{purge_trash-refused}

abbrev settings : Settings
settings = record {
  defaults = record { email = codes "a@b.c"; timezone = "UTC" };
  max_series_occurrences = 400;
  zones = utc_only;
  lower = λ s. s;
  casefold = λ s. s;
}

abbrev start : System
start = record { db = sample_db; sent = [] }

abbrev message : Email
message = record { recipient = codes "a@b.c"; subject = []; body = []; message_id = (3, 1) }

abbrev scenario : List Request
scenario =
    Request.claim_due_batch (λ _. false) (10 * day) 300 60 100
    ∷ Request.authorize_delivery 3 4 (10 * day) 300
    ∷ Request.authorize_delivery 3 4 (10 * day) 300
    ∷ Request.record_outcome 3 message accepted
    ∷ []

sample_db-IsStored : IsStored sample_db
unfolding is_storable
sample_db-IsStored = record {
  deliveries = record {
    apart = (tt, tt);
    drawn = (omega arith, tt);
    rows = (record { accepted = refl }, tt);
  };
  events = record { apart = tt; drawn = tt; rows = tt };
}

-- One message leaves.
one_message : length (replay settings scenario start).sent ≡ 1
unfolding replay exec run record_outcome end_attempt one one_or_none authorize_delivery
    authorize_locked check_found check_delivery authorize notify lock_series delivery_ids
    claim_due_batch claim_rows claim_row due_rows is_claimable minus plus uuid4 utcnow
    write_delivery error_of valid_recipient strip lstrip is_space partition is_storable
    is_storable_event
one_message = refl

replay-IsSound_example :
    IsSound (replay settings scenario start)
    × Evolves Later sample_db.deliveries (replay settings scenario start).db.deliveries
replay-IsSound_example =
    replay-IsSound settings scenario start
      (record { stored = sample_db-IsStored; handed = tt; once = tt })

run-accepts_example :
    IfReturns
      (λ _ t. accepts t ≡ true)
      (run settings (Request.claim_due_batch (λ _. false) (10 * day) 300 60 100) sample_db)
run-accepts_example =
    run-accepts settings (Request.claim_due_batch (λ _. false) (10 * day) 300 60 100) sample_db refl
      sample_db-IsStored

-- The sample note in the trash, and an attempt of its delivery in progress.
abbrev trashed_db : Db
trashed_db = record sample_db { notes = record sample_note { deleted_at = some (10 * day) } ∷ [] }

abbrev attempted : ReminderDelivery
attempted = record sample_delivery {
  state = DeliveryState.attempt_started;
  claim_token = some 7;
  authorized_at = some (10 * day);
  recipient_snapshot = some (codes "a@b.c");
  content_snapshot = some (record { title = 84 ∷ []; body = []; note_id = 1 });
}

abbrev attempted_db : Db
attempted_db = record trashed_db { deliveries = attempted ∷ [] }

trashed_db-IsStored : IsStored trashed_db
trashed_db-IsStored = record {
  deliveries = record {
    apart = sample_db-IsStored.deliveries.apart;
    drawn = sample_db-IsStored.deliveries.drawn;
    rows = sample_db-IsStored.deliveries.rows;
  };
  events = record { apart = tt; drawn = tt; rows = tt };
}

purge_trash-Onward_example :
    IfReturns (λ _ t. Onward trashed_db t) (purge_trash (41 * day) 30 10 trashed_db)
purge_trash-Onward_example =
    purge_trash-Onward (41 * day) 30 10 trashed_db trashed_db-IsStored ((λ _. refl), tt)

purge_trash-refused_example :
    IfReturns
      (λ _ t. all is_storable t.deliveries ≡ false)
      (purge_trash (41 * day) 30 10 attempted_db)
unfolding is_delivery_of purge_ids expired_notes purge_candidates action_members distinct
purge_trash-refused_example = purge_trash-refused (41 * day) 30 10 attempted_db (inl (refl, refl))
