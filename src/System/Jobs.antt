-- ===== src/System/Jobs.antt =====
-- The jobs of backend/app/jobs keep the constraints: rows that a job reads, and then writes one by one.
pub mod Claims
pub mod Sends
pub mod Outcomes
pub mod Upkeep
pub mod Purge
pub mod Refused
pub mod Published
pub mod Handed
mod Tests
use mad_devs_note_taker.Base.{
  ℕ, ◌+◌, ◌*◌, ◌-◌, ◌≡◌, ◌≢◌, refl, Bool, true, false, ◌&&◌, ◌||◌, not, ltb, ◌==◌, opt_eq, opt_lt,
  String, Option, some, none, List, [], ◌∷◌, ◌++◌, select, take, suc, All-both, All, All-imp,
  All-take, Bool-cases, inl, inr, arith, sym,
}
use mad_devs_note_taker.Base.Tables.{order_by, All-order_by, update_where}
use mad_devs_note_taker.Base.Apart.{
  Apart, Apart-select, Apart-order_by, Apart-take, Member, All-of, select-Member,
}
use mad_devs_note_taker.Base.Keyed.{Member-write}
use mad_devs_note_taker.Base.Results.{Result, ok}
use mad_devs_note_taker.Models.{
  Db, Text, Note, ReminderRule, ReminderDelivery, DeliveryState, is_open, is_pending, is_claimed,
  is_attempt_started,
}
use mad_devs_note_taker.Session.{
  Error, M, ◌>>=◌, ◌>>◌, pure, lift, minus, plus, second, uuid4, utcnow,
}
use mad_devs_note_taker.Session.Rules.{IfReturns, IfReturns-bind, IfReturns-read, IfReturns-imp}
use mad_devs_note_taker.Deliveries.{OtherId, Later, open-reaches}
use mad_devs_note_taker.Storage.{IsStorable, is_storable_event}
use mad_devs_note_taker.Storage.Rows.{
  cancel-IsStorable, miss-IsStorable, lease-IsStorable, release-IsStorable, start-IsStorable,
  finish-IsStorable, lose-IsStorable,
}
use mad_devs_note_taker.Reminders.{write_delivery, cancel_delivery}
use mad_devs_note_taker.Jobs.Claim.{
  is_claimable, due_rows, due_before, miss_delivery, lease_delivery, claim_row, claim_rows,
  claim_due_batch,
}
use mad_devs_note_taker.System.Keeps.{
  IsStored, Onward, Onward-refl, Onward-trans, draw-Onward, Keeps, Keeps-bind, Keeps-pure,
  keeps_rules, delivery_id,
}
use mad_devs_note_taker.System.Effects.{write-Onward, Keeps-bind_read, Keeps-bind_gets, Onward-bind}

pub open-Later :
    (d e : ReminderDelivery)
    → is_open d.state ≡ true
    → e.id ≡ d.id
    → e.reminder_rule_id ≡ d.reminder_rule_id
    → e.cycle_number ≡ d.cycle_number
    → e.due_at ≡ d.due_at
    → Later d e
open-Later d e o i r c t = record {
  same_id = i;
  same_rule = r;
  same_cycle = c;
  same_due = t;
  reached = open-reaches d.state e.state o;
}

-- One row was written, and the others stay where they are.
pub record Written (d : ReminderDelivery) (s t : Db) : Type 0 where
  pub onward : Onward s t
  pub others : (x : ReminderDelivery) → OtherId d x → Member x s.deliveries → Member x t.deliveries

pub write-Written :
    (f : ReminderDelivery → ReminderDelivery) (d : ReminderDelivery) (s : Db)
    → IsStored s
    → ((x : ReminderDelivery) → (f x).id ≡ x.id)
    → Member d s.deliveries
    → Later d (f d)
    → (IsStorable d → IsStorable (f d))
    → IfReturns (λ _ t. Written d s t) (write_delivery d.id f s)
unfolding write_delivery
write-Written f d s h same m later k = record {
  onward = write-Onward f d s h same m later k;
  others = λ x o n. Member-write delivery_id f x d s.deliveries o n;
}

-- After a step that touches no delivery.
pub Written-after :
    (d : ReminderDelivery) (s t u : Db)
    → Onward s t
    → t.deliveries ≡ s.deliveries
    → Written d t u
    → Written d s u
Written-after d s t u k same w = record {
  onward = Onward-trans k w.onward;
  others = λ x o m. w.others x o (rw same m);
}

-- The rows that a job has read and not written yet, all in a state that `q` allows.
pub record Awaits (q : DeliveryState → Bool) (rows : List ReminderDelivery) (s : Db) : Type 0 where
  pub stored : IsStored s
  pub apart : Apart OtherId rows
  pub found : All (λ (d : ReminderDelivery). Member d s.deliveries × (q d.state ≡ true)) rows

pub Awaits-next :
    (q : DeliveryState → Bool) (d : ReminderDelivery) (rows : List ReminderDelivery) (s t : Db)
    → Awaits q (d ∷ rows) s
    → Written d s t
    → Awaits q rows t
Awaits-next q d rows s t h w = record {
  stored = w.onward.stored;
  apart = h.apart.1;
  found = All-both (OtherId d) _ _ (λ x o m. (w.others x o m.0, m.1)) rows h.apart.0 h.found.1;
}

-- What a query of the job reads.
pub read-Awaits :
    (q : DeliveryState → Bool) (p : ReminderDelivery → Bool)
    (le : ReminderDelivery → ReminderDelivery → Bool) (limit : ℕ) (s : Db)
    → IsStored s
    → ((d : ReminderDelivery) → p d ≡ true → q d.state ≡ true)
    → Awaits q (take limit (order_by le (select p s.deliveries))) s
read-Awaits q p le limit s h sound = record {
  stored = h;
  apart = Apart-take OtherId limit (order_by le (select p s.deliveries)) (
      Apart-order_by OtherId (λ x y o e. o (sym e)) le (select p s.deliveries)
        (Apart-select OtherId p s.deliveries h.deliveries.apart));
  found = All-take _ limit (order_by le (select p s.deliveries)) (
      All-order_by _ le (select p s.deliveries) (
        All-of _ (select p s.deliveries)
          (λ d m. let (n, t) = select-Member p d s.deliveries m in (n, sound d t))));
}
