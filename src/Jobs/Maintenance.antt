-- ===== src/Jobs/Maintenance.antt =====
-- backend/app/jobs/maintenance.py: `purge_trash` and `maintain`. Identifiers are compared as numbers, as
-- the data base orders them.
use mad_devs_note_taker.Base.{
  ℕ, zero, suc, ◌+◌, ◌*◌, Bool, true, false, ◌&&◌, not, if◌then◌else◌, ltb, leb, ◌==◌, opt_le,
  opt_lt, opt_eq, Option, some, none, is_none, List, [], ◌∷◌, ◌++◌, select, take, length, any, map,
  contains,
}
use mad_devs_note_taker.Base.Tables.{update_where, order_by}
use mad_devs_note_taker.Base.Text.{codes}
use mad_devs_note_taker.Schemas.{distinct}
use mad_devs_note_taker.Models.{
  Db, next_version, Note, NoteTag, SeriesTag, SeriesReminderTemplate, OccurrenceException,
  RecurrenceSeries, ReminderRule, ReminderDelivery, Notification, OutboxEvent,
  RecurringTrashActionMember,
}
use mad_devs_note_taker.Session.{
  M, Job, commit, done, ◌>>=◌, ◌>>◌, pure, lift, gets, modify, for_each, minus, day, uuid4,
}
use mad_devs_note_taker.Jobs.Deliver.{classify_unknown}

abbrev pub is_expired : ℕ → Note → Bool
is_expired cutoff n = opt_le n.deleted_at cutoff && is_none n.purged_at

abbrev pub by_id : Note → Note → Bool
by_id a b = leb a.id b.id

abbrev pub present : {A : Type 0} → List (Option A) → List A
present [] = []
present (none ∷ xs) = present xs
present (some x ∷ xs) = x ∷ present xs

-- The notes of the first query, in the order of their identifiers.
unfoldable pub purge_candidates : ℕ → ℕ → Db → List Note
purge_candidates cutoff limit s = take limit (order_by by_id (select (is_expired cutoff) s.notes))

abbrev pub is_member : Db → Note → ℕ → Bool
is_member s n action_id =
    any (λ (m : RecurringTrashActionMember). (m.action_id == action_id) && (m.note_id == n.id))
      s.trash_members

-- The notes that the recurring trash actions of the candidates still hold.
unfoldable pub action_members : List ℕ → Db → List Note
action_members action_ids s =
    select
      (λ (n : Note).
        any (λ (a : ℕ). opt_eq n.current_recurring_trash_action_id a && is_member s n a) action_ids)
      s.notes

abbrev pub purge_note : ℕ → Note → Note
purge_note now n = record n {
  title = codes "[purged]";
  body = [];
  purged_at = some now;
  updated_at = now;
  current_recurring_trash_action_id = none;
  version = next_version n.version;
}

abbrev pub purged_text : List ℕ
purged_text = codes "[purged]"

abbrev pub opt_same : Option ℕ → Option ℕ → Bool
opt_same none b = is_none b
opt_same (some a) b = opt_eq b a

-- Whether a delivery belongs to a rule of one of the notes.
unfoldable pub is_delivery_of : List ℕ → Db → ReminderDelivery → Bool
is_delivery_of note_ids s d =
    any (λ (r : ReminderRule). (r.id == d.reminder_rule_id) && contains r.note_id note_ids) s.rules

unfoldable pub is_notification_of : List ℕ → Db → Notification → Bool
unfolding is_delivery_of
is_notification_of note_ids s n =
    any (λ (d : ReminderDelivery). (d.id == n.reminder_delivery_id) && is_delivery_of note_ids s d)
      s.deliveries

abbrev pub is_exception_of : List ℕ → Db → OccurrenceException → Bool
is_exception_of note_ids s x =
    any
      (λ (n : Note).
        contains n.id note_ids
        && opt_eq n.series_id x.series_id
        && opt_eq n.recurrence_key x.recurrence_key)
      s.notes

-- The content of the purged notes goes from every table that holds a copy of it.
unfoldable pub redact : List ℕ → Db → Db
unfolding is_delivery_of is_notification_of
redact note_ids s = record s {
  deliveries =
      update_where (is_delivery_of note_ids s)
        (λ (d : ReminderDelivery). record d { content_snapshot = none; recipient_snapshot = none })
        s.deliveries;
  notifications =
      update_where (is_notification_of note_ids s)
        (λ (n : Notification). record n { title = purged_text; body = [] }) s.notifications;
  note_tags = select (λ (t : NoteTag). not (contains t.note_id note_ids)) s.note_tags;
  exceptions =
      update_where (is_exception_of note_ids s)
        (λ (x : OccurrenceException). record x { overridden_fields = [] }) s.exceptions;
}

abbrev pub purge_series : ℕ → RecurrenceSeries → RecurrenceSeries
purge_series now r = record r {
  local_start = record { date = record { year = 1970; month = 1; day = 1 }; micros = 0 };
  timezone = "UTC";
  rrule = codes "FREQ=DAILY;INTERVAL=1";
  end_date = record { year = 1970; month = 1; day = 1 };
  template_title = purged_text;
  template_body = [];
  template_active = false;
  purged_at = some now;
  version = next_version r.version;
}

-- A series none of whose notes is left unpurged.
abbrev pub is_exhausted : ℕ → Db → Bool
is_exhausted series_id s =
    not (any (λ (n : Note). opt_eq n.series_id series_id && is_none n.purged_at) s.notes)
    && any (λ (r : RecurrenceSeries). (r.id == series_id) && is_none r.purged_at)
        s.recurrence_series

unfoldable pub redact_series : ℕ → ℕ → Db → Db
redact_series now series_id s =
    if is_exhausted series_id s
    then record s {
      series_tags = select (λ (t : SeriesTag). not (t.series_id == series_id)) s.series_tags;
      templates =
          select (λ (t : SeriesReminderTemplate). not (t.series_id == series_id)) s.templates;
      exceptions =
          update_where (λ (x : OccurrenceException). x.series_id == series_id)
            (λ (x : OccurrenceException). record x { cancelled = true; overridden_fields = [] })
            s.exceptions;
      recurrence_series =
          update_where (λ (r : RecurrenceSeries). r.id == series_id) (purge_series now)
            s.recurrence_series;
    }
    else s

unfoldable pub deleted_event : ℕ → Note → M (Unit {0})
deleted_event now n = do
  event_id ← uuid4
  modify (λ s. record s {
    outbox =
        s.outbox
        ++ record {
          id = event_id;
          event_type = "note.deleted";
          entity_id = n.id;
          payload = record {
            event_id = event_id;
            type = "note.deleted";
            occurred_at = now;
            entity_id = n.id;
            notification_id = none;
            version = n.version;
            series_id = n.series_id;
          };
          created_at = s.server_now;
          published_at = none;
          attempts = 0;
          next_attempt_at = none;
          error_code = none;
        }
          ∷ [];
  })

-- The note identifiers that a purge takes up: the candidates', and those of the actions behind them.
unfoldable pub purge_ids : ℕ → ℕ → Db → List ℕ × List ℕ
unfolding purge_candidates action_members
purge_ids cutoff limit s =
    let candidates = purge_candidates cutoff limit s in
    let action_ids =
      distinct (present (map (λ (n : Note). n.current_recurring_trash_action_id) candidates)) in
    let all_notes = candidates ++ action_members action_ids s in
    (
      distinct (map (λ (n : Note). n.id) all_notes),
      order_by leb (distinct (present (map (λ (n : Note). n.series_id) all_notes))),
    )

-- The rows that are purged: those of the identifiers that have expired by themselves.
unfoldable pub expired_notes : ℕ → List ℕ → Db → List Note
expired_notes cutoff note_ids s =
    order_by by_id (select (λ (n : Note). contains n.id note_ids && is_expired cutoff n) s.notes)

-- `if purged_note_ids`
unfoldable pub redact_notes : List ℕ → M (Unit {0})
redact_notes [] = pure tt
redact_notes (i ∷ is) = modify (redact (i ∷ is))

unfoldable pub purge_notes : ℕ → List ℕ → M (Unit {0})
purge_notes now ids = modify (λ s. record s {
  notes = update_where (λ (n : Note). contains n.id ids) (purge_note now) s.notes;
})

unfoldable pub purge_trash : ℕ → ℕ → ℕ → M ℕ
unfolding purge_ids expired_notes
purge_trash now retention_days limit = do
  cutoff ← lift (minus now (retention_days * day))
  ids ← gets (purge_ids cutoff limit)
  notes ← gets (expired_notes cutoff ids.0)
  let purged_ids = map (λ (n : Note). n.id) notes
  purge_notes now purged_ids
  redact_notes purged_ids
  for_each ids.1 (λ series_id. modify (redact_series now series_id))
  for_each (map (purge_note now) notes) (deleted_event now)
  pure (length notes)

-- `while True`: purges of 10,000 candidates, each a transaction of its own, until one is not full; `none` stands
-- for fuel that ran out. No other transaction runs between two purges.
unfoldable pub cleanup_trash : ℕ → ℕ → ℕ → Job (Option ℕ)
cleanup_trash zero now total = done none
cleanup_trash (suc fuel) now total = commit (purge_trash now 30 10000) (λ changed.
    let rest = cleanup_trash fuel now (total + changed) in
    if ltb changed 10000 then done (some (total + changed)) else rest)

-- Notifications and published events from before the cutoff go.
unfoldable pub forget_old : ℕ → M (Unit {0})
forget_old cutoff = modify (λ s. record s {
  notifications = select (λ (n : Notification). not (ltb n.created_at cutoff)) s.notifications;
  outbox = select (λ (e : OutboxEvent). not (opt_lt e.published_at cutoff)) s.outbox;
})

unfoldable pub maintain : (ℕ → Bool) → ℕ → M ℕ
maintain locked now = do
  changed ← classify_unknown locked now 60 100
  cutoff ← lift (minus now (30 * day))
  forget_old cutoff
  pure changed
