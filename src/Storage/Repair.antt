-- ===== src/Storage/Repair.antt =====
-- The repair of notes, deliveries and exceptions by `upgrade` of
-- backend/migrations/versions/0004_storage_contract.py: what a superseded or purged note left accessible.
pub mod Settled
use mad_devs_note_taker.Base.{
  ℕ, Bool, true, ◌&&◌, ◌||◌, not, ◌==◌, opt_eq, some, none, is_some, is_none, List, [], any, select,
}
use mad_devs_note_taker.Base.Tables.{update_where}
use mad_devs_note_taker.Models.{
  Db, Note, ReminderRule, ReminderDelivery, DeliveryState, OccurrenceException, is_open,
}

-- Superseded, and yet not in the trash.
abbrev pub is_ghost : Note → Bool
is_ghost n = is_some n.superseded_at && is_none n.purged_at && is_none n.deleted_at

unfoldable pub delete_ghosts : Db → Db
delete_ghosts s = record s {
  notes = update_where is_ghost (λ (n : Note). record n { deleted_at = n.superseded_at }) s.notes;
}

abbrev pub is_gone : Note → Bool
is_gone n = is_some n.superseded_at || is_some n.purged_at

-- An open delivery of a note that is gone.
abbrev pub is_stray : Db → ReminderDelivery → Bool
is_stray s d =
    any
      (λ (r : ReminderRule).
        (d.reminder_rule_id == r.id)
        && any (λ (n : Note). (r.note_id == n.id) && is_gone n) s.notes)
      s.rules
    && is_open d.state

abbrev pub cancel_stray : ℕ → ReminderDelivery → ReminderDelivery
cancel_stray now d = record d {
  state = DeliveryState.cancelled;
  claim_token = none;
  claim_expires_at = none;
  result_at = some now;
  error_code = none;
}

unfoldable pub cancel_strays : ℕ → Db → Db
cancel_strays now s = record s {
  deliveries = update_where (is_stray s) (cancel_stray now) s.deliveries;
}

abbrev pub is_of : OccurrenceException → Note → Bool
is_of x n = opt_eq n.series_id x.series_id && opt_eq n.recurrence_key x.recurrence_key

abbrev pub is_superseded : Db → OccurrenceException → Bool
is_superseded s x =
    any (λ (n : Note). is_of x n && is_some n.superseded_at && is_none n.purged_at) s.notes

unfoldable pub drop_superseded : Db → Db
drop_superseded s = record s {
  exceptions = select (λ (x : OccurrenceException). not (is_superseded s x)) s.exceptions;
}

abbrev pub is_purged : Db → OccurrenceException → Bool
is_purged s x = any (λ (n : Note). is_of x n && is_some n.purged_at) s.notes

unfoldable pub cancel_purged : Db → Db
cancel_purged s = record s {
  exceptions =
      update_where (is_purged s)
        (λ (x : OccurrenceException). record x { cancelled = true; overridden_fields = [] })
        s.exceptions;
}

unfoldable pub repair : ℕ → Db → Db
repair now s = cancel_purged (drop_superseded (cancel_strays now (delete_ghosts s)))
