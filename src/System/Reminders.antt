-- ===== src/System/Reminders.antt =====
-- Reconciling the reminders of a note keeps the constraints, whatever the note and the offsets.
use mad_devs_note_taker.Base.{
  ℕ, ◌≡◌, refl, Bool, ◌&&◌, ◌||◌, not, ltb, contains, ◌==◌, Option, some, none, List, Bool-cases,
  inl, inr, select,
}
use mad_devs_note_taker.Base.Tables.{update_where}
use mad_devs_note_taker.Base.Results.{ok}
use mad_devs_note_taker.Base.Apart.{Member}
use mad_devs_note_taker.Models.{Db, Note, ReminderRule, ReminderDelivery, is_open, is_cancelled}
use mad_devs_note_taker.Session.{◌>>◌, lift, one_or_none}
use mad_devs_note_taker.Session.Rules.{IfReturns, IfReturns-read, IfReturns-imp}
use mad_devs_note_taker.Storage.Rows.{fresh-IsStorable, cancel-IsStorable, reopen-IsStorable}
use mad_devs_note_taker.Reminders.{
  is_live, is_current, new_delivery, fresh_delivery, cancel_delivery, reopen_delivery, write_rule,
  due_at, current_delivery, cancel_open, refresh_delivery, settle_rule, reconcile_rule, add_rule,
  reconcile_reminders,
}
use mad_devs_note_taker.Reminders.Round.{cancel-Later, reopen-Later}
use mad_devs_note_taker.System.Keeps.{
  IsStored, Onward, Onward-refl, Onward-trans, Keeps, Keeps-bind, Keeps-then, Keeps-lift,
  modify-Onward, keeps_rules,
}
use mad_devs_note_taker.System.Effects.{Keeps-insert, write-Onward, Keeps-bind_read, Onward-bind}
use mad_devs_note_taker.Session.Found.{one_or_none-found}

pub Keeps-new_delivery :
    (note : Note) (rule : ReminderRule) (now : ℕ) → Keeps (new_delivery note rule now)
unfolding new_delivery
Keeps-new_delivery note rule now =
    Keeps-bind (lift (due_at note.starts_at rule.offset_minutes)) _ (Keeps-lift _) (λ deadline.
      Keeps-insert (λ id. fresh_delivery id note rule deadline now) _ (λ id. refl)
        (λ id. fresh-IsStorable id note rule deadline now) (λ id s. refl) (λ id s. refl)
        (λ id s. refl))

Keeps-write_rule : (id : ℕ) (f : ReminderRule → ReminderRule) → Keeps (write_rule id f)
unfolding write_rule
Keeps-write_rule id f = search (keeps_rules)

-- What the query for the current delivery gives.
abbrev IsFound : Option ReminderDelivery → Db → Type 0
IsFound none s = Unit
IsFound (some d) s = Member d s.deliveries

module _ (now : ℕ) (s : Db) (h : IsStored s) where
  cancel_open-Onward :
      (o : Option ReminderDelivery)
      → IsFound o s
      → IfReturns (λ _ t. Onward s t) (cancel_open now o s)
  unfolding cancel_open
  cancel_open-Onward none m = Onward-refl s h
  cancel_open-Onward (some d) m = elim (Bool-cases (is_open d.state)) [
    | inl o ↦ rw o (
        write-Onward (cancel_delivery now) d s h (λ x. refl) m (cancel-Later now d o)
          (λ k. cancel-IsStorable d k now o))
    | inr c ↦ rw c (Onward-refl s h)
  ]

module _ (now : ℕ) (s : Db) (h : IsStored s) where
  refresh_delivery-Onward :
      (note : Note) (rule : ReminderRule) (o : Option ReminderDelivery)
      → IsFound o s
      → IfReturns (λ _ t. Onward s t) (refresh_delivery note rule now o s)
  unfolding refresh_delivery
  refresh_delivery-Onward note rule none m = Onward-refl s h
  refresh_delivery-Onward note rule (some d) m =
      elim (Bool-cases (is_open d.state || is_cancelled d.state)) [
        | inr c ↦ rw c (Onward-refl s h)
        | inl o ↦ rw o (
            IfReturns-read (λ _ t. Onward s t) (due_at note.starts_at rule.offset_minutes) _ s
              (λ deadline _. elim (Bool-cases (is_live note && ltb now deadline)) [
                | inl t ↦ rw t (
                    write-Onward reopen_delivery d s h (λ x. refl) m (reopen-Later d o)
                      (λ k. reopen-IsStorable d k o))
                | inr u ↦ rw u (cancel_open-Onward now s h (some d) m)
              ]))
      ]

  disable-Onward :
      (id : ℕ) (f : ReminderRule → ReminderRule) (o : Option ReminderDelivery)
      → IsFound o s
      → IfReturns (λ _ t. Onward s t) ((write_rule id f >> cancel_open now o) s)
  unfolding write_rule
  disable-Onward id f o m =
      let t : Db = record s { rules = update_where (λ (r : ReminderRule). r.id == id) f s.rules } in
      let k : Onward s t = modify-Onward s t h refl refl refl in
      IfReturns-imp (λ _ u. Onward t u) (λ _ u. Onward s u) (cancel_open now o t)
        (λ _ u q. Onward-trans k q) (cancel_open-Onward now t k.stored o (same o m))
    where
      same :
          (o : Option ReminderDelivery)
          → IsFound o s
          → IsFound o
              (record s { rules = update_where (λ (r : ReminderRule). r.id == id) f s.rules })
      same none m = m
      same (some d) m = m

  -- Every branch of the loop's body.
  settle_rule-Onward :
      (note : Note) (offsets : List ℕ) (schedule_changed : Bool) (rule : ReminderRule)
      (o : Option ReminderDelivery)
      → IsFound o s
      → IfReturns (λ _ t. Onward s t) (settle_rule note offsets schedule_changed now rule o s)
  unfolding settle_rule
  settle_rule-Onward note offsets schedule_changed rule o m =
      elim (Bool-cases (not (contains rule.offset_minutes offsets))) [
        | inl dropped ↦ rw dropped (disable-Onward rule.id _ o m)
        | inr wanted ↦ rw wanted (elim (Bool-cases (schedule_changed || not rule.enabled)) [
          | inl changed ↦ rw changed (
              Onward-bind (cancel_open now o) _ s (cancel_open-Onward now s h o m) (λ _.
                Keeps-then (write_rule rule.id _) _ (Keeps-write_rule rule.id _)
                  (Keeps-new_delivery note _ now)))
          | inr same ↦ rw same (refresh_delivery-Onward note rule o m)
        ])
      ]

Keeps-reconcile_rule :
    (note : Note) (offsets : List ℕ) (schedule_changed : Bool) (now : ℕ) (rule : ReminderRule)
    → Keeps (reconcile_rule note offsets schedule_changed now rule)
unfolding reconcile_rule current_delivery
Keeps-reconcile_rule note offsets schedule_changed now rule =
    Keeps-bind_read (λ s. one_or_none (select (is_current rule) s.deliveries)) _
      (λ o s e h. settle_rule-Onward now s h note offsets schedule_changed rule o (found o s e))
  where
    found :
        (o : Option ReminderDelivery) (s : Db)
        → one_or_none (select (is_current rule) s.deliveries) ≡ ok o
        → IsFound o s
    found none s e = tt
    found (some d) s e = (one_or_none-found (is_current rule) d s.deliveries e).0

Keeps-add_rule : (note : Note) (now offset : ℕ) → Keeps (add_rule note now offset)
unfolding add_rule
Keeps-add_rule note now offset = search (keeps_rules, Keeps-new_delivery)

pub Keeps-reconcile_reminders :
    (note : Note) (offsets : List ℕ) (schedule_changed : Bool) (now : ℕ)
    → Keeps (reconcile_reminders note offsets schedule_changed now)
unfolding reconcile_reminders
Keeps-reconcile_reminders note offsets schedule_changed now =
    search (keeps_rules, Keeps-reconcile_rule, Keeps-add_rule)
