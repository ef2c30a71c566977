-- ===== src/System/Keeps.antt =====
-- Transactions that keep the tables' constraints on deliveries and events, and move deliveries forward: one
-- rule for each way to build a transaction.
use mad_devs_note_taker.Base.{
  ℕ, suc, ◌+◌, ◌<◌, ◌≡◌, ◌≢◌, refl, Bool, true, false, if◌then◌else◌, Option, some, none, List, [],
  ◌∷◌, ◌++◌, arith, All, All-imp, All-append, Bool-cases, inl, inr,
}
use mad_devs_note_taker.Base.Keyed.{IsTable, IsTable-draw}
use mad_devs_note_taker.Base.Apart.{Evolves, Evolves-refl, Evolves-trans}
use mad_devs_note_taker.Base.Results.{Result, ok, err}
use mad_devs_note_taker.Models.{Db, ReminderDelivery, OutboxEvent}
use mad_devs_note_taker.Deliveries.{Later, Later-refl, Later-trans}
use mad_devs_note_taker.Storage.{IsStorable, IsStorableEvent}
use mad_devs_note_taker.Session.{
  M, Error, ◌>>=◌, ◌>>◌, pure, raise, lift, gets, modify, raise_if, found_or, when, for_each, uuid4,
  utcnow,
}
use mad_devs_note_taker.Session.Rules.{IfReturns, IfReturns-bind, IfReturns-imp}

abbrev pub delivery_id : ReminderDelivery → ℕ
delivery_id d = d.id

abbrev pub event_id : OutboxEvent → ℕ
event_id e = e.id

-- The primary keys, drawn once, and the check constraints.
pub record IsStored (s : Db) : Type 0 where
  pub deliveries : IsTable delivery_id IsStorable s.next_uuid s.deliveries
  pub events : IsTable event_id IsStorableEvent s.next_uuid s.outbox

-- A state that the tables may go to from `s`.
pub record Onward (s s' : Db) : Type 0 where
  pub stored : IsStored s'
  pub evolves : Evolves Later s.deliveries s'.deliveries

pub Onward-refl : (s : Db) → IsStored s → Onward s s
Onward-refl s h = record { stored = h; evolves = Evolves-refl Later-refl s.deliveries }

pub Onward-trans : {s t u : Db} → Onward s t → Onward t u → Onward s u
Onward-trans h k = record {
  stored = k.stored;
  evolves = Evolves-trans Later-trans h.evolves k.evolves;
}

-- `m` goes on from any state that the constraints allow, where it returns.
pub record Keeps {A : Type 0} (m : M A) : Type 0 where
  pub at : (s : Db) → IsStored s → IfReturns (λ _ s'. Onward s s') (m s)

module _ {A : Type 0} where
  pub Keeps-pure : (a : A) → Keeps (pure a)
  Keeps-pure a = record { at = λ s h. Onward-refl s h }

  pub Keeps-raise : (e : Error) → Keeps (raise {A = A} e)
  Keeps-raise e = record { at = λ s h. tt }

  pub Keeps-gets : (f : Db → A) → Keeps (gets f)
  Keeps-gets f = record { at = λ s h. Onward-refl s h }

  lifted : (r : Result Error A) (s : Db) → IsStored s → IfReturns (λ _ s'. Onward s s') (lift r s)
  lifted (ok a) s h = Onward-refl s h
  lifted (err e) s h = tt

  pub Keeps-read : (f : Db → Result Error A) → Keeps (λ s. lift (f s) s)
  Keeps-read f = record { at = λ s h. lifted (f s) s h }

  pub Keeps-lift : (r : Result Error A) → Keeps (lift r)
  Keeps-lift r = record { at = λ s h. lifted r s h }

  pub Keeps-found_or : (m : M A) (o : Option A) → Keeps m → Keeps (found_or m o)
  Keeps-found_or m none k = k
  Keeps-found_or m (some a) k = Keeps-pure a

  pub Keeps-if : (b : Bool) (m n : M A) → Keeps m → Keeps n → Keeps (if b then m else n)
  Keeps-if true m n k l = k
  Keeps-if false m n k l = l

module _ {A B : Type 0} where
  pub Keeps-bind : (m : M A) (f : A → M B) → Keeps m → ((a : A) → Keeps (f a)) → Keeps (m >>= f)
  Keeps-bind m f k l = record {
    at = λ s h.
        IfReturns-bind (λ _ s'. Onward s s') (λ _ s'. Onward s s') m f s (k.at s h)
          (λ a s' o.
            IfReturns-imp (λ _ t. Onward s' t) (λ _ t. Onward s t) (f a s')
              (λ _ t q. Onward-trans o q) ((l a).at s' o.stored));
  }

  pub Keeps-then : (m : M A) (k : M B) → Keeps m → Keeps k → Keeps (m >> k)
  Keeps-then m k h l = Keeps-bind m (λ _. k) h (λ _. l)

pub Keeps-for_each :
    {A : Type 0} (xs : List A) (body : A → M (Unit {0}))
    → ((x : A) → Keeps (body x))
    → Keeps (for_each xs body)
unfolding for_each
Keeps-for_each [] body k = Keeps-pure tt
Keeps-for_each (x ∷ xs) body k =
    Keeps-bind (body x) (λ _. for_each xs body) (k x) (λ _. Keeps-for_each xs body k)

pub Keeps-when : (b : Bool) (m : M (Unit {0})) → Keeps m → Keeps (when b m)
Keeps-when true m k = k
Keeps-when false m k = Keeps-pure tt

pub Keeps-raise_if : (b : Bool) (e : Error) → Keeps (raise_if b e)
Keeps-raise_if true e = record { at = λ s h. tt }
Keeps-raise_if false e = record { at = λ s h. Onward-refl s h }

-- The error shows what was read.
pub Keeps-raise_if_read : (b : Db → Bool) (e : Db → Error) → Keeps (λ s. raise_if (b s) (e s) s)
Keeps-raise_if_read b e = record { at = λ s h. (Keeps-raise_if (b s) (e s)).at s h }

-- A change of other tables.
pub modify-Onward :
    (s t : Db)
    → IsStored s
    → t.deliveries ≡ s.deliveries
    → t.next_uuid ≡ s.next_uuid
    → t.outbox ≡ s.outbox
    → Onward s t
modify-Onward s t h d n o = record {
  stored = record { deliveries = rw (d, n) h.deliveries; events = rw (o, n) h.events };
  evolves = rw d (Evolves-refl Later-refl s.deliveries);
}

pub Keeps-modify :
    (f : Db → Db)
    → ((s : Db) → (f s).deliveries ≡ s.deliveries)
    → ((s : Db) → (f s).next_uuid ≡ s.next_uuid)
    → ((s : Db) → (f s).outbox ≡ s.outbox)
    → Keeps (modify f)
Keeps-modify f d n o = record { at = λ s h. modify-Onward s (f s) h (d s) (n s) (o s) }

-- An identifier is drawn.
pub draw-Onward :
    (s t : Db)
    → IsStored s
    → t.deliveries ≡ s.deliveries
    → t.next_uuid ≡ suc s.next_uuid
    → t.outbox ≡ s.outbox
    → Onward s t
draw-Onward s t h d n o = record {
  stored = record {
    deliveries = rw (d, n) (IsTable-draw s.deliveries h.deliveries);
    events = rw (o, n) (IsTable-draw s.outbox h.events);
  };
  evolves = rw d (Evolves-refl Later-refl s.deliveries);
}

pub Keeps-uuid4 : Keeps uuid4
unfolding uuid4
Keeps-uuid4 = record { at = λ s h. draw-Onward s _ h refl refl refl }

pub Keeps-utcnow : Keeps utcnow
unfolding utcnow
Keeps-utcnow = record { at = λ s h. modify-Onward s _ h refl refl refl }

pub ruleset keeps_rules = (
  Keeps-pure, Keeps-raise, Keeps-gets, Keeps-read, Keeps-lift, Keeps-raise_if_read, Keeps-found_or,
  Keeps-if, Keeps-bind, Keeps-then, Keeps-for_each, Keeps-when, Keeps-raise_if, Keeps-modify,
  Keeps-uuid4, Keeps-utcnow, refl,
)
