-- ===== src/System/Jobs/Tests.antt =====
-- Three events: the broker takes the first, fails on the second, and the third is already published.
use mad_devs_note_taker.Base.{ℕ, ◌*◌, ◌==◌, refl, Bool, false, none, some, [], ◌∷◌, arith}
use mad_devs_note_taker.Models.{Db, OutboxEvent, Payload}
use mad_devs_note_taker.Session.{day}
use mad_devs_note_taker.Session.Rules.{Returns}
use mad_devs_note_taker.Fixtures.{sample_db}
use mad_devs_note_taker.Jobs.Outbox.{waiting_rows, publish_batch}
use mad_devs_note_taker.Base.Apart.{Apart}
use mad_devs_note_taker.Base.Keyed.{Other}
use mad_devs_note_taker.System.Keeps.{event_id}
use mad_devs_note_taker.System.Jobs.Published.{IsReported, publish_batch-IsReported}

abbrev event : ℕ → OutboxEvent
event n = record {
  id = n;
  event_type = "note.created";
  entity_id = 1;
  payload = record {
    event_id = n;
    type = "note.created";
    occurred_at = day;
    entity_id = 1;
    notification_id = none;
    version = 1;
    series_id = none;
  };
  created_at = day;
  published_at = none;
  attempts = 0;
  next_attempt_at = none;
  error_code = none;
}

abbrev events_db : Db
events_db = record sample_db {
  outbox = event 1 ∷ event 2 ∷ record (event 3) { published_at = some (2 * day) } ∷ [];
}

abbrev takes_first : Payload → Bool
takes_first p = p.event_id == 1

abbrev unlocked : ℕ → Bool
unlocked id = false

events_db-Apart : Apart (Other event_id) events_db.outbox
events_db-Apart = (
  ((λ e. absurd (omega (arith, e))), ((λ e. absurd (omega (arith, e))), tt)),
  (((λ e. absurd (omega (arith, e))), tt), (tt, tt)),
)

publish_batch-IsReported_example :
    Returns
      (IsReported takes_first (3 * day) (waiting_rows unlocked (3 * day) 100 events_db) events_db)
      (publish_batch unlocked takes_first (3 * day) 100 events_db)
publish_batch-IsReported_example =
    publish_batch-IsReported unlocked takes_first (3 * day) 100 refl events_db events_db-Apart
