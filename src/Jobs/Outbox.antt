-- ===== src/Jobs/Outbox.antt =====
-- backend/app/jobs/outbox.py: `publish_batch` hands waiting events to Redis.
--
-- `publish` tells whether the broker took the event's payload or raised.
pub mod Backoff
mod Tests
use mad_devs_note_taker.Base.{
  ℕ, ◌+◌, ◌-◌, ◌*◌, ◌^◌, min, Bool, ◌&&◌, ◌||◌, not, if◌then◌else◌, ltb, leb, ◌==◌, opt_le, some,
  none, is_none, List, [], ◌∷◌, select, take,
}
use mad_devs_note_taker.Base.Tables.{update_where, order_by}
use mad_devs_note_taker.Models.{Db, OutboxEvent, Payload}
use mad_devs_note_taker.Session.{M, ◌>>=◌, ◌>>◌, pure, lift, gets, modify, plus, second}

abbrev pub is_waiting : ℕ → OutboxEvent → Bool
is_waiting now e =
    is_none e.published_at && (is_none e.next_attempt_at || opt_le e.next_attempt_at now)

abbrev pub created_before : OutboxEvent → OutboxEvent → Bool
created_before a b =
    ltb a.created_at b.created_at || ((a.created_at == b.created_at) && leb a.id b.id)

unfoldable pub waiting_rows : (ℕ → Bool) → ℕ → ℕ → Db → List OutboxEvent
waiting_rows locked now limit s = take limit (
    order_by created_before
      (select (λ (e : OutboxEvent). is_waiting now e && not (locked e.id)) s.outbox))

-- `min(60, 2 ** min(attempts - 1, 6))` for the attempts after the increment.
unfoldable pub backoff_seconds : ℕ → ℕ
backoff_seconds attempts = min 60 (2 ^ min (attempts - 1) 6)

abbrev pub mark_published : ℕ → OutboxEvent → OutboxEvent
mark_published now e = record e {
  attempts = e.attempts + 1;
  published_at = some now;
  next_attempt_at = none;
  error_code = none;
}

abbrev pub mark_failed : ℕ → OutboxEvent → OutboxEvent
mark_failed next_attempt_at e = record e {
  attempts = e.attempts + 1;
  error_code = some "outbox_publish_failed";
  next_attempt_at = some next_attempt_at;
}

unfoldable pub write_event : ℕ → (OutboxEvent → OutboxEvent) → M (Unit {0})
write_event id f =
    modify (λ s. record s { outbox = update_where (λ (e : OutboxEvent). e.id == id) f s.outbox })

-- One event: whether it was published.
unfoldable pub publish_row : (Payload → Bool) → ℕ → OutboxEvent → M ℕ
publish_row publish now e =
    if publish e.payload then (do write_event e.id (mark_published now); pure 1) else (do
      next_attempt_at ← lift (plus now (backoff_seconds (e.attempts + 1) * second))
      write_event e.id (mark_failed next_attempt_at)
      pure 0)

unfoldable pub publish_rows : (Payload → Bool) → ℕ → List OutboxEvent → M ℕ
publish_rows publish now [] = pure 0
publish_rows publish now (e ∷ es) = do
  n ← publish_row publish now e
  m ← publish_rows publish now es
  pure (n + m)

unfoldable pub publish_batch : (ℕ → Bool) → (Payload → Bool) → ℕ → ℕ → M ℕ
publish_batch locked publish now limit = do
  rows ← gets (waiting_rows locked now limit)
  publish_rows publish now rows
