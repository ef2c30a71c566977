-- ===== src/Deliveries.antt =====
-- The life of a reminder delivery, whose states docs/contracts.md lists and whose order is read off the code, and
-- the rows of the table `reminder_deliveries`.
use mad_devs_note_taker.Base.{
  ℕ, ◌≡◌, ◌≢◌, refl, sym, ◌∙◌, Bool, true, false, List, arith, ◌==◌, ==→eq, All, All-imp, ap, subst,
  [], ◌∷◌, inl, inr, ◌⊎◌, none, some,
}
use mad_devs_note_taker.Base.Tables.{update_where}
use mad_devs_note_taker.Base.Results.{ok}
use mad_devs_note_taker.Session.{one_or_none}
use mad_devs_note_taker.Base.Apart.{Apart, Member, All-at, Evolves, Evolves-update_where}
use mad_devs_note_taker.Models.{ReminderDelivery, DeliveryState, is_open}

-- The states in which a delivery can be, sooner or later, after it has been in the first one. What was
-- attempted is never attempted again, and what has ended stays.
abbrev pub reaches : DeliveryState → DeliveryState → Bool
reaches DeliveryState.attempt_started DeliveryState.attempt_started = true
reaches DeliveryState.attempt_started DeliveryState.sent = true
reaches DeliveryState.attempt_started DeliveryState.failed = true
reaches DeliveryState.attempt_started DeliveryState.unknown = true
reaches DeliveryState.attempt_started _ = false
reaches DeliveryState.sent DeliveryState.sent = true
reaches DeliveryState.sent _ = false
reaches DeliveryState.failed DeliveryState.failed = true
reaches DeliveryState.failed _ = false
reaches DeliveryState.unknown DeliveryState.unknown = true
reaches DeliveryState.unknown _ = false
reaches DeliveryState.missed DeliveryState.missed = true
reaches DeliveryState.missed _ = false
reaches _ _ = true

-- The same delivery, later: its rule, its cycle and its deadline stay.
pub record Later (d e : ReminderDelivery) : Type 0 where
  pub same_id : e.id ≡ d.id
  pub same_rule : e.reminder_rule_id ≡ d.reminder_rule_id
  pub same_cycle : e.cycle_number ≡ d.cycle_number
  pub same_due : e.due_at ≡ d.due_at
  pub reached : reaches d.state e.state ≡ true

pub reaches_refl : (a : DeliveryState) → reaches a a ≡ true
reaches_refl a = ground arith

pub reaches_trans :
    (a b c : DeliveryState) → reaches a b ≡ true → reaches b c ≡ true → reaches a c ≡ true
reaches_trans a b c h k = ground arith

pub Later-refl : (d : ReminderDelivery) → Later d d
Later-refl d = record {
  same_id = refl;
  same_rule = refl;
  same_cycle = refl;
  same_due = refl;
  reached = reaches_refl d.state;
}

pub Later-trans : (d e f : ReminderDelivery) → Later d e → Later e f → Later d f
Later-trans d e f h k = record {
  same_id = k.same_id ∙ h.same_id;
  same_rule = k.same_rule ∙ h.same_rule;
  same_cycle = k.same_cycle ∙ h.same_cycle;
  same_due = k.same_due ∙ h.same_due;
  reached = reaches_trans d.state e.state f.state h.reached k.reached;
}

-- The primary key, and the unique constraint on rule and cycle.
abbrev pub OtherId : ReminderDelivery → ReminderDelivery → Type 0
OtherId d e = d.id ≢ e.id

abbrev pub OtherSlot : ReminderDelivery → ReminderDelivery → Type 0
OtherSlot d e = d.reminder_rule_id ≡ e.reminder_rule_id → d.cycle_number ≢ e.cycle_number

-- The row with a member's identifier is that member.
pub same_row :
    (d : ReminderDelivery) (ds : List ReminderDelivery)
    → Apart OtherId ds
    → Member d ds
    → All (λ (x : ReminderDelivery). (x.id == d.id) ≡ true → x ≡ d) ds
same_row d [] h m = tt
same_row d (x ∷ xs) h (inl e) = (
  (λ _. e),
  All-imp (OtherId x) _
      (λ y other same.
        absurd (other (ap (λ (z : ReminderDelivery). z.id) e ∙ sym (==→eq y.id d.id same))))
      xs h.0,
)
same_row d (x ∷ xs) h (inr m) =
    ((λ same. absurd (All-at (OtherId x) d xs h.0 m (==→eq x.id d.id same))), same_row d xs h.1 m)

-- A write to one row of the table that moves the row along the order.
pub write-Evolves :
    (R : ReminderDelivery → ReminderDelivery → Type 0)
    → ((x : ReminderDelivery) → R x x)
    → (f : ReminderDelivery → ReminderDelivery) (d : ReminderDelivery) (ds : List ReminderDelivery)
    → Apart OtherId ds
    → Member d ds
    → R d (f d)
    → Evolves R ds (update_where (λ (x : ReminderDelivery). x.id == d.id) f ds)
write-Evolves R r f d ds h m step =
    Evolves-update_where r (λ (x : ReminderDelivery). x.id == d.id) f ds
      (All-imp (λ (x : ReminderDelivery). (x.id == d.id) ≡ true → x ≡ d) _
        (λ x same t. subst (λ y. R y (f y)) (sym (same t)) step) ds (same_row d ds h m))

-- No two deliveries of one rule have one cycle, so a query by both finds at most one.
pub one_slot :
    (rule_id cycle : ℕ) (ds : List ReminderDelivery)
    → Apart OtherSlot ds
    → All (λ (d : ReminderDelivery). (d.reminder_rule_id ≡ rule_id) × (d.cycle_number ≡ cycle)) ds
    → (one_or_none ds ≡ ok none)
      ⊎ ((d : ReminderDelivery) × (one_or_none ds ≡ ok (some d)) × Member d ds)
unfolding one_or_none
one_slot rule_id cycle [] h k = inl refl
one_slot rule_id cycle (x ∷ []) h k = inr (x, refl, inl refl)
one_slot rule_id cycle (x ∷ y ∷ ds) h k = absurd (h.0.0 (k.0.0 ∙ sym k.1.0.0) (k.0.1 ∙ sym k.1.0.1))

-- From pending or claimed everything can be reached.
pub open-reaches : (a b : DeliveryState) → is_open a ≡ true → reaches a b ≡ true
open-reaches a b h = ground arith
