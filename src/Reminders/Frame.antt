-- ===== src/Reminders/Frame.antt =====
-- Reconciling reminders leaves the notes, and what holds them in the trash, as they are.
use mad_devs_note_taker.Base.{ℕ, Bool, Option, some, none, List}
use mad_devs_note_taker.Models.{
  Db, Note, ReminderRule, ReminderDelivery, RecurringTrashAction, RecurringTrashActionMember,
}
use mad_devs_note_taker.Session.Frames.{Frames, frames_rules}
use mad_devs_note_taker.Reminders.{
  new_delivery, write_delivery, write_rule, current_delivery, cancel_open, refresh_delivery,
  settle_rule, reconcile_rule, add_rule, reconcile_reminders,
}

abbrev pub trash_view : Db → List Note × List RecurringTrashAction × List RecurringTrashActionMember
trash_view s = (s.notes, s.trash_actions, s.trash_members)

Frames-new_delivery :
    (note : Note) (rule : ReminderRule) (now : ℕ) → Frames trash_view (new_delivery note rule now)
unfolding new_delivery
Frames-new_delivery note rule now = search (frames_rules)

Frames-write_delivery :
    (id : ℕ) (f : ReminderDelivery → ReminderDelivery) → Frames trash_view (write_delivery id f)
unfolding write_delivery
Frames-write_delivery id f = search (frames_rules)

Frames-write_rule : (id : ℕ) (f : ReminderRule → ReminderRule) → Frames trash_view (write_rule id f)
unfolding write_rule
Frames-write_rule id f = search (frames_rules)

Frames-current_delivery : (rule : ReminderRule) → Frames trash_view (current_delivery rule)
unfolding current_delivery
Frames-current_delivery rule = search (frames_rules)

Frames-cancel_open : (now : ℕ) (o : Option ReminderDelivery) → Frames trash_view (cancel_open now o)
unfolding cancel_open
Frames-cancel_open now none = search (frames_rules)
Frames-cancel_open now (some d) = search (frames_rules, Frames-write_delivery)

Frames-refresh_delivery :
    (note : Note) (rule : ReminderRule) (now : ℕ) (o : Option ReminderDelivery)
    → Frames trash_view (refresh_delivery note rule now o)
unfolding refresh_delivery
Frames-refresh_delivery note rule now none = search (frames_rules)
Frames-refresh_delivery note rule now (some d) =
    search (frames_rules, Frames-write_delivery, Frames-cancel_open) depth 10

Frames-settle_rule :
    (note : Note) (offsets : List ℕ) (schedule_changed : Bool) (now : ℕ) (rule : ReminderRule)
    (o : Option ReminderDelivery)
    → Frames trash_view (settle_rule note offsets schedule_changed now rule o)
unfolding settle_rule
Frames-settle_rule note offsets schedule_changed now rule o =
    search
      (
        frames_rules, Frames-write_rule, Frames-cancel_open, Frames-new_delivery,
        Frames-refresh_delivery,
      )
      depth 10

Frames-reconcile_rule :
    (note : Note) (offsets : List ℕ) (schedule_changed : Bool) (now : ℕ) (rule : ReminderRule)
    → Frames trash_view (reconcile_rule note offsets schedule_changed now rule)
unfolding reconcile_rule
Frames-reconcile_rule note offsets schedule_changed now rule =
    search (frames_rules, Frames-current_delivery, Frames-settle_rule)

Frames-add_rule : (note : Note) (now offset : ℕ) → Frames trash_view (add_rule note now offset)
unfolding add_rule
Frames-add_rule note now offset = search (frames_rules, Frames-new_delivery) depth 10

pub Frames-reconcile_reminders :
    (note : Note) (offsets : List ℕ) (schedule_changed : Bool) (now : ℕ)
    → Frames trash_view (reconcile_reminders note offsets schedule_changed now)
unfolding reconcile_reminders
Frames-reconcile_reminders note offsets schedule_changed now =
    search (frames_rules, Frames-reconcile_rule, Frames-add_rule) depth 10
