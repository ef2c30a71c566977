-- ===== src/Reminders.antt =====
-- Reminder rules and their deliveries: `due_at` of backend/app/domain/common.py, `_new_delivery` and
-- `reconcile_reminders` of backend/app/domain/notes.py.
--
-- A delivery belongs to one rule and one cycle of it; the rule's current cycle is the one that counts.
pub mod Invariant
pub mod Round
pub mod Frame
pub mod History
mod Tests
use mad_devs_note_taker.Base.{
  ℕ, ◌+◌, ◌*◌, Bool, true, false, ◌&&◌, not, ◌||◌, if◌then◌else◌, ltb, leb, ◌==◌, Option, some,
  none, is_none, List, [], ◌∷◌, ◌++◌, select, contains, any, map,
}
use mad_devs_note_taker.Base.Tables.{update_where, order_by}
use mad_devs_note_taker.Base.Results.{Result}
use mad_devs_note_taker.Models.{
  Db, Note, ReminderRule, ReminderDelivery, DeliveryState, is_open, is_cancelled,
}
use mad_devs_note_taker.Session.{
  M, ◌>>=◌, ◌>>◌, pure, lift, gets, modify, when, for_each, one_or_none, minus, minute, uuid4,
  Error,
}
use mad_devs_note_taker.Schemas.{distinct}

unfoldable pub due_at : ℕ → ℕ → Result Error ℕ
unfolding minus
due_at starts_at offset_minutes = minus starts_at (offset_minutes * minute)

-- A note that may remind: active, and neither deleted, superseded nor purged.
abbrev pub is_live : Note → Bool
is_live note =
    note.active && is_none note.deleted_at && is_none note.superseded_at && is_none note.purged_at

abbrev pub initial_state : Note → ℕ → ℕ → DeliveryState
initial_state note deadline now =
    if not (is_live note)
    then DeliveryState.cancelled
    else if leb deadline now
    then DeliveryState.missed
    else DeliveryState.pending

abbrev pub ended_at : DeliveryState → ℕ → Option ℕ
ended_at DeliveryState.cancelled now = some now
ended_at DeliveryState.missed now = some now
ended_at _ now = none

abbrev pub fresh_delivery : ℕ → Note → ReminderRule → ℕ → ℕ → ReminderDelivery
fresh_delivery id note rule deadline now = record {
  id = id;
  reminder_rule_id = rule.id;
  cycle_number = rule.current_cycle_number;
  due_at = deadline;
  state = initial_state note deadline now;
  claim_token = none;
  claim_expires_at = none;
  authorized_at = none;
  recipient_snapshot = none;
  content_snapshot = none;
  result_at = ended_at (initial_state note deadline now) now;
  error_code = none;
}

unfoldable pub new_delivery : Note → ReminderRule → ℕ → M (Unit {0})
new_delivery note rule now = do
  deadline ← lift (due_at note.starts_at rule.offset_minutes)
  id ← uuid4
  modify
      (λ s. record s { deliveries = s.deliveries ++ fresh_delivery id note rule deadline now ∷ [] })

-- `current.state = cancelled`, with its claim dropped and its end noted.
abbrev pub cancel_delivery : ℕ → ReminderDelivery → ReminderDelivery
cancel_delivery now d = record d {
  state = DeliveryState.cancelled;
  claim_token = none;
  claim_expires_at = none;
  result_at = some now;
}

abbrev pub reopen_delivery : ReminderDelivery → ReminderDelivery
reopen_delivery d = record d {
  state = DeliveryState.pending;
  claim_token = none;
  claim_expires_at = none;
  result_at = none;
}

unfoldable pub write_delivery : ℕ → (ReminderDelivery → ReminderDelivery) → M (Unit {0})
write_delivery id f = modify (λ s. record s {
  deliveries = update_where (λ (d : ReminderDelivery). d.id == id) f s.deliveries;
})

unfoldable pub write_rule : ℕ → (ReminderRule → ReminderRule) → M (Unit {0})
write_rule id f =
    modify (λ s. record s { rules = update_where (λ (r : ReminderRule). r.id == id) f s.rules })

abbrev pub is_current : ReminderRule → ReminderDelivery → Bool
is_current rule d = (d.reminder_rule_id == rule.id) && (d.cycle_number == rule.current_cycle_number)

-- The delivery of the rule's current cycle.
unfoldable pub current_delivery : ReminderRule → M (Option ReminderDelivery)
current_delivery rule s = lift (one_or_none (select (is_current rule) s.deliveries)) s

-- Cancels the current delivery while it is still pending or claimed.
unfoldable pub cancel_open : ℕ → Option ReminderDelivery → M (Unit {0})
cancel_open now none = pure tt
cancel_open now (some d) = when (is_open d.state) (write_delivery d.id (cancel_delivery now))

-- The last branch: the schedule and the rule stand as they were.
unfoldable pub refresh_delivery : Note → ReminderRule → ℕ → Option ReminderDelivery → M (Unit {0})
refresh_delivery note rule now none = pure tt
refresh_delivery note rule now (some d) = when (is_open d.state || is_cancelled d.state) (do
  deadline ← lift (due_at note.starts_at rule.offset_minutes)
  if is_live note && ltb now deadline
      then write_delivery d.id reopen_delivery
      else cancel_open now (some d))

-- What becomes of a rule of the note, given its current delivery.
unfoldable pub settle_rule :
    Note → List ℕ → Bool → ℕ → ReminderRule → Option ReminderDelivery → M (Unit {0})
settle_rule note offsets schedule_changed now rule current =
    if not (contains rule.offset_minutes offsets)
    then (do write_rule rule.id (λ r. record r { enabled = false }); cancel_open now current)
    else if schedule_changed || not rule.enabled
    then (do
      cancel_open now current
      write_rule rule.id
          (λ r. record r { enabled = true; current_cycle_number = rule.current_cycle_number + 1 })
      new_delivery note (record rule { current_cycle_number = rule.current_cycle_number + 1 }) now)
    else refresh_delivery note rule now current

-- One round of the loop over the note's rules.
unfoldable pub reconcile_rule : Note → List ℕ → Bool → ℕ → ReminderRule → M (Unit {0})
reconcile_rule note offsets schedule_changed now rule = do
  current ← current_delivery rule
  settle_rule note offsets schedule_changed now rule current

-- A rule for an offset that the note did not have.
unfoldable pub add_rule : Note → ℕ → ℕ → M (Unit {0})
add_rule note now offset = do
  id ← uuid4
  modify (λ s. record s {
    rules =
        s.rules
        ++ record {
          id = id;
          note_id = note.id;
          offset_minutes = offset;
          enabled = true;
          current_cycle_number = 1;
        }
          ∷ [];
  })
  new_delivery note
      (record {
        id = id;
        note_id = note.id;
        offset_minutes = offset;
        enabled = true;
        current_cycle_number = 1;
      })
      now

abbrev pub rules_of : Note → Db → List ReminderRule
rules_of note s =
    order_by (λ (a : ReminderRule) (b : ReminderRule). leb a.id b.id)
      (select (λ (r : ReminderRule). r.note_id == note.id) s.rules)

-- `sorted(wanted - by_offset.keys())`
abbrev pub missing_offsets : List ℕ → List ReminderRule → List ℕ
missing_offsets offsets rules = order_by leb (
    select (λ (o : ℕ). not (any (λ (r : ReminderRule). r.offset_minutes == o) rules))
      (distinct offsets))

unfoldable pub reconcile_reminders : Note → List ℕ → Bool → ℕ → M (Unit {0})
reconcile_reminders note offsets schedule_changed now = do
  rules ← gets (rules_of note)
  for_each rules (reconcile_rule note offsets schedule_changed now)
  for_each (missing_offsets offsets rules) (add_rule note now)
