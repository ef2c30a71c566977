-- ===== src/System/Effects.antt =====
-- What adds or writes rows of `reminder_deliveries` and of `outbox_events`, and keeps their constraints.
use mad_devs_note_taker.Base.{ℕ, suc, ◌≡◌, refl, [], ◌∷◌, ◌++◌}
use mad_devs_note_taker.Base.Keyed.{IsTable, IsTable-draw, IsTable-add, IsTable-write}
use mad_devs_note_taker.Base.Apart.{Evolves-append, Member, All-at, Evolves-refl}
use mad_devs_note_taker.Base.Results.{Result, ok}
use mad_devs_note_taker.Models.{Db, ReminderDelivery, OutboxEvent}
use mad_devs_note_taker.Deliveries.{Later, Later-refl, write-Evolves}
use mad_devs_note_taker.Storage.{IsStorable, IsStorableEvent}
use mad_devs_note_taker.Session.{M, Error, ◌>>=◌, ◌>>◌, lift, gets, modify, uuid4}
use mad_devs_note_taker.Session.Rules.{IfReturns, IfReturns-bind, IfReturns-imp, IfReturns-read}
use mad_devs_note_taker.Reminders.{write_delivery}
use mad_devs_note_taker.System.Keeps.{Onward-trans, IsStored, Onward, Keeps, event_id}

-- A change of the events alone.
pub events-Onward :
    (s t : Db)
    → IsStored s
    → t.deliveries ≡ s.deliveries
    → t.next_uuid ≡ s.next_uuid
    → IsTable event_id IsStorableEvent s.next_uuid t.outbox
    → Onward s t
events-Onward s t h d n o = record {
  stored = record { deliveries = rw (d, n) h.deliveries; events = rw n o };
  evolves = rw d (Evolves-refl Later-refl s.deliveries);
}

-- An event is added, under an identifier that was drawn for it.
pub emit-Onward :
    (e : OutboxEvent) (s t : Db)
    → IsStored s
    → e.id ≡ s.next_uuid
    → IsStorableEvent e
    → t.deliveries ≡ s.deliveries
    → t.next_uuid ≡ suc s.next_uuid
    → t.outbox ≡ s.outbox ++ e ∷ []
    → Onward s t
emit-Onward e s t h i k d n o = record {
  stored = record {
    deliveries = rw (d, n) (IsTable-draw s.deliveries h.deliveries);
    events = rw (o, n) (IsTable-add e s.outbox i k h.events);
  };
  evolves = rw d (Evolves-refl Later-refl s.deliveries);
}

pub Keeps-emit :
    (e : ℕ → Db → OutboxEvent)
    → ((id : ℕ) (s : Db) → (e id s).id ≡ id)
    → ((id : ℕ) (s : Db) → IsStorableEvent (e id s))
    → Keeps (uuid4 >>= λ id. modify (λ s. record s { outbox = s.outbox ++ e id s ∷ [] }))
unfolding uuid4
Keeps-emit e i k = record {
  at = λ s h. emit-Onward _ s _ h (i s.next_uuid _) (k s.next_uuid _) refl refl refl;
}

-- An event in the middle of a block.
pub Keeps-emit_then :
    {B : Type 0} (e : ℕ → Db → OutboxEvent) (rest : ℕ → M B)
    → ((id : ℕ) (s : Db) → (e id s).id ≡ id)
    → ((id : ℕ) (s : Db) → IsStorableEvent (e id s))
    → ((id : ℕ) → Keeps (rest id))
    → Keeps (uuid4 >>= λ id. modify (λ s. record s { outbox = s.outbox ++ e id s ∷ [] }) >> rest id)
unfolding uuid4
Keeps-emit_then e rest i k l = record {
  at = λ s h.
      let t : Db = record s {
        next_uuid = suc s.next_uuid;
        outbox = s.outbox ++ e s.next_uuid (record s { next_uuid = suc s.next_uuid }) ∷ [];
      } in
      let o : Onward s t = emit-Onward _ s t h (i s.next_uuid _) (k s.next_uuid _) refl refl refl in
      IfReturns-imp (λ _ u. Onward t u) (λ _ u. Onward s u) (rest s.next_uuid t)
        (λ _ u q. Onward-trans o q) ((l s.next_uuid).at t o.stored);
}

-- And so is a delivery.
pub Keeps-insert :
    (d : ℕ → ReminderDelivery) (f : ℕ → Db → Db)
    → ((id : ℕ) → (d id).id ≡ id)
    → ((id : ℕ) → IsStorable (d id))
    → ((id : ℕ) (s : Db) → (f id s).deliveries ≡ s.deliveries ++ d id ∷ [])
    → ((id : ℕ) (s : Db) → (f id s).next_uuid ≡ s.next_uuid)
    → ((id : ℕ) (s : Db) → (f id s).outbox ≡ s.outbox)
    → Keeps (uuid4 >>= λ id. modify (f id))
unfolding uuid4
Keeps-insert d f i k a n o = record {
  at = λ s h.
      let t : Db = f s.next_uuid (record s { next_uuid = suc s.next_uuid }) in
      record {
        stored = record {
          deliveries =
              rw (a s.next_uuid, n s.next_uuid)
                (IsTable-add (d s.next_uuid) s.deliveries (i s.next_uuid) (k s.next_uuid)
                  h.deliveries);
          events = rw (o s.next_uuid, n s.next_uuid) (IsTable-draw s.outbox h.events);
        };
        evolves = rw (a s.next_uuid) (Evolves-append Later-refl s.deliveries _);
      };
}

-- A write to one delivery that moves it forward.
pub write-Onward :
    (f : ReminderDelivery → ReminderDelivery) (d : ReminderDelivery) (s : Db)
    → IsStored s
    → ((x : ReminderDelivery) → (f x).id ≡ x.id)
    → Member d s.deliveries
    → Later d (f d)
    → (IsStorable d → IsStorable (f d))
    → IfReturns (λ _ t. Onward s t) (write_delivery d.id f s)
unfolding write_delivery
write-Onward f d s h same m later k = record {
  stored = record {
    deliveries =
        IsTable-write f d s.deliveries same m
          (k (All-at IsStorable d s.deliveries h.deliveries.rows m)) h.deliveries;
    events = h.events;
  };
  evolves = write-Evolves Later Later-refl f d s.deliveries h.deliveries.apart m later;
}

pub Onward-from :
    {A : Type 0} {s t : Db} (r : Result Error (A × Db))
    → Onward s t
    → IfReturns (λ _ u. Onward t u) r
    → IfReturns (λ _ u. Onward s u) r
Onward-from {s = s} {t = t} r o =
    IfReturns-imp (λ _ u. Onward t u) (λ _ u. Onward s u) r (λ _ u q. Onward-trans o q)

module _ {A B : Type 0} where
  -- The rest of the block may use what was read.
  pub Keeps-bind_read :
      (f : Db → Result Error A) (g : A → M B)
      → ((a : A) (s : Db) → f s ≡ ok a → IsStored s → IfReturns (λ _ t. Onward s t) (g a s))
      → Keeps ((λ s. lift (f s) s) >>= g)
  Keeps-bind_read f g k = record {
    at = λ s h. IfReturns-read (λ _ t. Onward s t) (f s) g s (λ a e. k a s e h);
  }

  pub Keeps-bind_gets :
      (f : Db → A) (g : A → M B)
      → ((s : Db) → IsStored s → IfReturns (λ _ t. Onward s t) (g (f s) s))
      → Keeps (gets f >>= g)
  Keeps-bind_gets f g k = record { at = k }

  -- A transaction that goes on from here, and then one that always does.
  pub Onward-bind :
      (m : M A) (f : A → M B) (s : Db)
      → IfReturns (λ _ t. Onward s t) (m s)
      → ((a : A) → Keeps (f a))
      → IfReturns (λ _ t. Onward s t) ((m >>= f) s)
  Onward-bind m f s h l =
      IfReturns-bind (λ _ t. Onward s t) (λ _ t. Onward s t) m f s h
        (λ a s' o.
          IfReturns-imp (λ _ t. Onward s' t) (λ _ t. Onward s t) (f a s')
            (λ _ t q. Onward-trans o q) ((l a).at s' o.stored))
