-- ===== src/System/Jobs/Upkeep.antt =====
-- Publishing events and maintenance keep the constraints.
use mad_devs_note_taker.Base.{
  ℕ, ◌+◌, ◌*◌, ◌≡◌, refl, sym, Bool, true, ◌&&◌, not, opt_lt, is_none, List, [], ◌∷◌, select, All,
  All-take, All-both, Bool-cases, inl, inr, arith,
}
use mad_devs_note_taker.Base.Tables.{order_by, All-order_by}
use mad_devs_note_taker.Base.Apart.{
  Apart, Apart-select, Apart-order_by, Apart-take, Member, All-of, select-Member,
}
use mad_devs_note_taker.Base.Keyed.{Other, Member-write, IsTable-write, IsTable-select}
use mad_devs_note_taker.Models.{Db, OutboxEvent, Payload}
use mad_devs_note_taker.Session.{pure, plus, second}
use mad_devs_note_taker.Session.Rules.{IfReturns, IfReturns-bind, IfReturns-read}
use mad_devs_note_taker.Storage.{IsStorableEvent, is_storable_event}
use mad_devs_note_taker.Jobs.Outbox.{
  is_waiting, created_before, waiting_rows, backoff_seconds, mark_published, mark_failed,
  write_event, publish_row, publish_rows, publish_batch,
}
use mad_devs_note_taker.Jobs.Maintenance.{maintain, forget_old}
use mad_devs_note_taker.System.Keeps.{
  IsStored, Onward, Onward-refl, Keeps, Keeps-pure, keeps_rules, event_id,
}
use mad_devs_note_taker.System.Effects.{events-Onward, Onward-bind, Onward-from}
use mad_devs_note_taker.System.Jobs.Outcomes.{Keeps-classify_unknown}

-- One event was written, and the others stay where they are.
record Marked (e : OutboxEvent) (s t : Db) : Type 0 where
  onward : Onward s t
  others : (x : OutboxEvent) → Other event_id e x → Member x s.outbox → Member x t.outbox

write_event-Marked :
    (f : OutboxEvent → OutboxEvent) (e : OutboxEvent) (s : Db)
    → IsStored s
    → ((x : OutboxEvent) → (f x).id ≡ x.id)
    → Member e s.outbox
    → IsStorableEvent (f e)
    → IfReturns (λ _ t. Marked e s t) (write_event e.id f s)
unfolding write_event
write_event-Marked f e s h same m k = record {
  onward = events-Onward s _ h refl refl (IsTable-write f e s.outbox same m k h.events);
  others = λ x o n. Member-write event_id f x e s.outbox o n;
}

mark_published-IsStorableEvent :
    (e : OutboxEvent) (now : ℕ) → IsStorableEvent (mark_published now e)
unfolding is_storable_event
mark_published-IsStorableEvent e now = record { accepted = ground arith }

mark_failed-IsStorableEvent :
    (e : OutboxEvent) (at : ℕ) → is_none e.published_at ≡ true → IsStorableEvent (mark_failed at e)
unfolding is_storable_event
mark_failed-IsStorableEvent e at n = record { accepted = ground arith }

-- The events that a batch has read and not marked yet.
record Waits (es : List OutboxEvent) (s : Db) : Type 0 where
  stored : IsStored s
  apart : Apart (Other event_id) es
  found : All (λ (e : OutboxEvent). Member e s.outbox × (is_none e.published_at ≡ true)) es

module _ (publish : Payload → Bool) (now : ℕ) where
  publish_row-Marked :
      (e : OutboxEvent) (s : Db)
      → IsStored s
      → Member e s.outbox
      → is_none e.published_at ≡ true
      → IfReturns (λ _ t. Marked e s t) (publish_row publish now e s)
  unfolding publish_row write_event
  publish_row-Marked e s h m n = elim (Bool-cases (publish e.payload)) [
    | inl taken ↦ rw taken (
        write_event-Marked (mark_published now) e s h (λ x. refl) m
          (mark_published-IsStorableEvent e now))
    | inr lost ↦ rw lost (
        IfReturns-read (λ _ t. Marked e s t) (plus now (backoff_seconds (e.attempts + 1) * second))
          _ s
          (λ at _.
            write_event-Marked (mark_failed at) e s h (λ x. refl) m
              (mark_failed-IsStorableEvent e at n)))
  ]

  publish_rows-Onward :
      (es : List OutboxEvent) (s : Db)
      → Waits es s
      → IfReturns (λ _ t. Onward s t) (publish_rows publish now es s)
  unfolding publish_rows
  publish_rows-Onward [] s h = Onward-refl s h.stored
  publish_rows-Onward (e ∷ es) s h =
      IfReturns-bind (λ _ t. Onward s t) (λ _ t. Marked e s t) (publish_row publish now e) _ s
        (publish_row-Marked e s h.stored h.found.0.0 h.found.0.1)
        (λ n t w. Onward-from _ w.onward (
          Onward-bind (publish_rows publish now es) (λ m. pure (n + m)) t
            (publish_rows-Onward es t (record {
              stored = w.onward.stored;
              apart = h.apart.1;
              found =
                  All-both (Other event_id e) _ _ (λ x o k. (w.others x o k.0, k.1)) es h.apart.0
                    h.found.1;
            }))
            (λ m. Keeps-pure (n + m))))

pub Keeps-publish_batch :
    (locked : ℕ → Bool) (publish : Payload → Bool) (now limit : ℕ)
    → Keeps (publish_batch locked publish now limit)
unfolding publish_batch waiting_rows
Keeps-publish_batch locked publish now limit = record {
  at = λ s h.
      let p : OutboxEvent → Bool = λ e. is_waiting now e && not (locked e.id) in
      publish_rows-Onward publish now (waiting_rows locked now limit s) s (record {
        stored = h;
        apart = Apart-take (Other event_id) limit (order_by created_before (select p s.outbox)) (
            Apart-order_by (Other event_id) (λ x y o e. o (sym e)) created_before
              (select p s.outbox) (Apart-select (Other event_id) p s.outbox h.events.apart));
        found = All-take _ limit (order_by created_before (select p s.outbox)) (
            All-order_by _ created_before (select p s.outbox) (
              All-of _ (select p s.outbox)
                (λ e m. let (n, t) = select-Member p e s.outbox m in (n, ground (arith, t)))));
      });
}

Keeps-forget_old : (cutoff : ℕ) → Keeps (forget_old cutoff)
unfolding forget_old
Keeps-forget_old cutoff = record {
  at = λ s h.
      events-Onward s _ h refl refl (
        IsTable-select (λ (e : OutboxEvent). not (opt_lt e.published_at cutoff)) s.outbox h.events);
}

pub Keeps-maintain : (locked : ℕ → Bool) (now : ℕ) → Keeps (maintain locked now)
unfolding maintain
Keeps-maintain locked now = search (keeps_rules, Keeps-classify_unknown, Keeps-forget_old) depth 10
