-- ===== src/Reminders/Invariant.antt =====
-- What the loop of `reconcile_reminders` keeps between two rules: the keys of the deliveries, and that
-- no delivery of a rule still to come is ahead of the rule's cycle.
use mad_devs_note_taker.Base.{
  ℕ, suc, ◌≤◌, ◌<◌, ◌≡◌, ◌≢◌, sym, ◌∙◌, Bool, List, [], ◌∷◌, ◌++◌, arith, All, All-imp, All-append,
}
use mad_devs_note_taker.Base.Apart.{Apart, Apart-append, Apart-update_where}
use mad_devs_note_taker.Base.Tables.{update_where, All-update_where}
use mad_devs_note_taker.Models.{ReminderRule, ReminderDelivery}
use mad_devs_note_taker.Deliveries.{OtherId, OtherSlot}

-- The fields by which a delivery is found.
pub record SameKeys (f : ReminderDelivery → ReminderDelivery) : Type 0 where
  pub id : (d : ReminderDelivery) → (f d).id ≡ d.id
  pub rule : (d : ReminderDelivery) → (f d).reminder_rule_id ≡ d.reminder_rule_id
  pub cycle : (d : ReminderDelivery) → (f d).cycle_number ≡ d.cycle_number

abbrev pub OtherRule : ReminderRule → ReminderRule → Type 0
OtherRule q r = q.id ≢ r.id

-- Deliveries and identifiers, as the table's constraints keep them.
pub record IsKeyed (next_uuid : ℕ) (ds : List ReminderDelivery) : Type 0 where
  pub ids : Apart OtherId ds
  pub slots : Apart OtherSlot ds
  pub drawn :
      All (λ (d : ReminderDelivery). (d.id < next_uuid) × (d.reminder_rule_id < next_uuid)) ds

-- No delivery of the rule is ahead of its current cycle.
abbrev pub NotAhead : List ReminderDelivery → ReminderRule → Type 0
NotAhead ds r =
    All
      (λ (d : ReminderDelivery).
        d.reminder_rule_id ≡ r.id → d.cycle_number ≤ r.current_cycle_number)
      ds

pub write-IsKeyed :
    (n : ℕ) (f : ReminderDelivery → ReminderDelivery) (p : ReminderDelivery → Bool)
    (ds : List ReminderDelivery)
    → SameKeys f
    → IsKeyed n ds
    → IsKeyed n (update_where p f ds)
write-IsKeyed n f p ds same k = record {
  ids =
      Apart-update_where OtherId p f (λ x y h e. h (sym (same.id x) ∙ e))
        (λ x y h e. h (e ∙ same.id y)) ds k.ids;
  slots =
      Apart-update_where OtherSlot p f
        (λ x y h e c. h (sym (same.rule x) ∙ e) (sym (same.cycle x) ∙ c))
        (λ x y h e c. h (e ∙ same.rule y) (c ∙ same.cycle y)) ds k.slots;
  drawn = All-update_where _ p f (λ d h. (rw (same.id d) h.0, rw (same.rule d) h.1)) ds k.drawn;
}

pub write-NotAhead :
    (f : ReminderDelivery → ReminderDelivery) (p : ReminderDelivery → Bool)
    (ds : List ReminderDelivery) (r : ReminderRule)
    → SameKeys f
    → NotAhead ds r
    → NotAhead (update_where p f ds) r
write-NotAhead f p ds r same h =
    All-update_where _ p f (λ d k e. rw (same.cycle d) (k (sym (same.rule d) ∙ e))) ds h

-- A new delivery, with a new identifier and for a cycle that its rule has not had.
pub add-IsKeyed :
    (n : ℕ) (d : ReminderDelivery) (ds : List ReminderDelivery)
    → IsKeyed n ds
    → d.id ≡ n
    → d.reminder_rule_id < n
    → All (λ (x : ReminderDelivery). OtherSlot x d) ds
    → IsKeyed (suc n) (ds ++ d ∷ [])
add-IsKeyed n d ds k e r other = record {
  ids =
      Apart-append OtherId ds d k.ids
        (All-imp _ _ (λ x h same. absurd (omega (arith, h.0, same, e))) ds k.drawn);
  slots = Apart-append OtherSlot ds d k.slots other;
  drawn =
      All-append _ ds (d ∷ [])
        (All-imp _ _ (λ x h. (omega (arith, h.0), omega (arith, h.1))) ds k.drawn)
        ((omega (arith, e), omega arith), tt);
}
