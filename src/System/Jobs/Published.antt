-- ===== src/System/Jobs/Published.antt =====
-- What a batch of the outbox leaves in the table.
use mad_devs_note_taker.Base.{
  ℕ, ◌+◌, ◌*◌, ◌≤◌, ◌≡◌, refl, sym, Bool, true, false, ◌&&◌, not, List, [], ◌∷◌, select, All,
  All-both, All-imp, All-take, length, ltb, Bool-cases, inl, inr, ◌⊎◌, ◌==◌, ==_refl, some, none,
  ◌^◌, ◌-◌, min, ap, arith,
}
use mad_devs_note_taker.Base.Tables.{order_by, All-order_by, update_where}
use mad_devs_note_taker.Base.Apart.{
  Apart, Apart-select, Apart-order_by, Apart-take, Member, All-of, select-Member,
  Member-update_where_of_true,
}
use mad_devs_note_taker.Base.Keyed.{Other, Member-write}
use mad_devs_note_taker.Models.{Db, OutboxEvent, Payload}
use mad_devs_note_taker.Session.{plus, second, end_of_time}
use mad_devs_note_taker.Session.Rules.{Returns, Returns-bind}
use mad_devs_note_taker.Jobs.Outbox.{
  is_waiting, created_before, waiting_rows, backoff_seconds, mark_published, mark_failed,
  write_event, publish_row, publish_rows, publish_batch,
}
use mad_devs_note_taker.System.Keeps.{event_id}

-- The event as the broker's answer leaves it: published now, or to be tried again after a wait that doubles
-- from one second up to a minute.
abbrev pub Reported : (Payload → Bool) → ℕ → OutboxEvent → Db → Type 0
Reported publish now e t =
    ((publish e.payload ≡ true)
      × Member
          (record e {
            attempts = e.attempts + 1;
            published_at = some now;
            next_attempt_at = none;
            error_code = none;
          })
          t.outbox)
    ⊎ ((publish e.payload ≡ false)
        × Member
            (record e {
              attempts = e.attempts + 1;
              next_attempt_at = some (now + min 60 (2 ^ min e.attempts 6) * second);
              error_code = some "outbox_publish_failed";
            })
            t.outbox)

-- The rows `es` are reported, the others stay, and `n` of the rows were published.
pub record IsReported (publish : Payload → Bool) (now : ℕ) (es : List OutboxEvent) (s : Db) (n : ℕ)
    (t : Db) : Type 0 where
  pub reported : All (λ e. Reported publish now e t) es
  pub others :
      (x : OutboxEvent) → All (λ e. Other event_id e x) es → Member x s.outbox → Member x t.outbox
  pub count : n ≡ length (select (λ (e : OutboxEvent). publish e.payload) es)

-- The wait after an event's next failure.
backoff_seconds-next : (attempts : ℕ) → backoff_seconds (attempts + 1) ≡ min 60 (2 ^ min attempts 6)
unfolding backoff_seconds
backoff_seconds-next attempts =
    let e : attempts + 1 - 1 ≡ attempts = omega arith in ap (λ a. min 60 (2 ^ min a 6)) e

backoff_seconds_le : (n : ℕ) → backoff_seconds n ≤ 60
unfolding backoff_seconds
backoff_seconds_le n = omega arith

Member-written :
    (f : OutboxEvent → OutboxEvent) (e : OutboxEvent) (xs : List OutboxEvent)
    → Member e xs
    → Member (f e) (update_where (λ (x : OutboxEvent). x.id == e.id) f xs)
Member-written f e xs m =
    Member-update_where_of_true (λ (x : OutboxEvent). x.id == e.id) f e xs m (==_refl e.id)

fits_lem :
    (now wait : ℕ)
    → ltb (now + 60 * second) end_of_time ≡ true
    → wait ≤ 60
    → ltb (now + wait * second) end_of_time ≡ true
fits_lem now wait early h = ground (arith, early, h)

module _ (publish : Payload → Bool) (now : ℕ)
    (early : ltb (now + 60 * second) end_of_time ≡ true) where
  publish_row-Reported :
      (e : OutboxEvent) (s : Db)
      → Member e s.outbox
      → Returns (IsReported publish now (e ∷ []) s) (publish_row publish now e s)
  unfolding publish_row write_event plus
  publish_row-Reported e s m = elim (Bool-cases (publish e.payload)) [
    | inl taken ↦ rw taken (record {
      reported = (inl (taken, Member-written (mark_published now) e s.outbox m), tt);
      others = λ x o k. Member-write event_id (mark_published now) x e s.outbox o.0 k;
      count = rw taken refl;
    })
    | inr lost ↦
        let at = now + backoff_seconds (e.attempts + 1) * second in
        let fits : ltb at end_of_time ≡ true =
          fits_lem now (backoff_seconds (e.attempts + 1)) early
            (backoff_seconds_le (e.attempts + 1)) in
        rw (lost, fits)
          (record {
            reported = (
              inr (
                lost,
                rw (← backoff_seconds-next e.attempts)
                    (Member-written (mark_failed at) e s.outbox m),
              ),
              tt,
            );
            others = λ x o k. Member-write event_id (mark_failed at) x e s.outbox o.0 k;
            count = rw lost refl;
          })
  ]

  -- A report stands while other rows are reported.
  Reported-later :
      (e : OutboxEvent) (es : List OutboxEvent) (t : Db) (k : ℕ) (u : Db)
      → All (Other event_id e) es
      → IsReported publish now es t k u
      → Reported publish now e t
      → Reported publish now e u
  Reported-later e es t k u o v (inl r) =
      inl
        (r.0, v.others _ (All-imp (Other event_id e) _ (λ x other same. other (sym same)) es o) r.1)
  Reported-later e es t k u o v (inr r) =
      inr
        (r.0, v.others _ (All-imp (Other event_id e) _ (λ x other same. other (sym same)) es o) r.1)

  joined :
      (e : OutboxEvent) (es : List OutboxEvent) (s : Db) (n : ℕ) (t : Db) (k : ℕ) (u : Db)
      → All (Other event_id e) es
      → IsReported publish now (e ∷ []) s n t
      → IsReported publish now es t k u
      → IsReported publish now (e ∷ es) s (n + k) u
  joined e es s n t k u o w v = record {
    reported = (Reported-later e es t k u o v w.reported.0, v.reported);
    others = λ x p m. v.others x p.1 (w.others x (p.0, tt) m);
    count = elim (Bool-cases (publish e.payload)) [
      | inl taken ↦ let one : n ≡ 1 = rw taken at w.count in rw taken (omega (arith, one, v.count))
      | inr lost ↦
          let none_sent : n ≡ 0 = rw lost at w.count in rw lost (omega (arith, none_sent, v.count))
    ];
  }

  publish_rows-Reported :
      (es : List OutboxEvent) (s : Db)
      → Apart (Other event_id) es
      → All (λ e. Member e s.outbox) es
      → Returns (IsReported publish now es s) (publish_rows publish now es s)
  unfolding publish_rows
  publish_rows-Reported [] s h m = record { reported = tt; others = λ x o k. k; count = refl }
  publish_rows-Reported (e ∷ es) s h m =
      Returns-bind (IsReported publish now (e ∷ []) s) (IsReported publish now (e ∷ es) s)
        (publish_row publish now e) _ s (publish_row-Reported e s m.0)
        (λ n t w.
          Returns-bind (IsReported publish now es t) (IsReported publish now (e ∷ es) s)
            (publish_rows publish now es) _ t
            (publish_rows-Reported es t h.1
              (All-both (Other event_id e) _ _ (λ x o k. w.others x (o, tt) k) es h.0 m.1))
            (λ k u v. joined e es s n t k u h.0 w v))

-- Where the latest retry is a date and the events have distinct identifiers, `publish_batch` returns: each event
-- that it selected has one attempt more and, by the broker's answer, is published now or waits
-- `min 60 (2 ^ min attempts 6)` seconds for its next attempt, with `attempts` as before the batch; the other events stay as they are; and it returns the number of events that the broker took.
pub publish_batch-IsReported :
    (locked : ℕ → Bool) (publish : Payload → Bool) (now limit : ℕ)
    → ltb (now + 60 * second) end_of_time ≡ true
    → (s : Db) → Apart (Other event_id) s.outbox
    → Returns
        (IsReported publish now (waiting_rows locked now limit s) s)
        (publish_batch locked publish now limit s)
unfolding publish_batch waiting_rows
publish_batch-IsReported locked publish now limit early s apart =
    publish_rows-Reported publish now early (waiting_rows locked now limit s) s
      (Apart-take (Other event_id) limit (order_by created_before (select p s.outbox)) (
        Apart-order_by (Other event_id) (λ x y o e. o (sym e)) created_before (select p s.outbox)
          (Apart-select (Other event_id) p s.outbox apart)))
      (All-take _ limit (order_by created_before (select p s.outbox)) (
        All-order_by _ created_before (select p s.outbox)
          (All-of _ (select p s.outbox) (λ e m. (select-Member p e s.outbox m).0))))
  where
    p : OutboxEvent → Bool
    p e = is_waiting now e && not (locked e.id)
