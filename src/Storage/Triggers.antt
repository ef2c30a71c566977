-- ===== src/Storage/Triggers.antt =====
-- The triggers of backend/migrations/versions/0004_storage_contract.py on recurring trash actions, their
-- members, notes and series. A trigger raises, or returns the row that is written.
pub mod Sealing
pub mod Filling
pub mod Trashed
use mad_devs_note_taker.Base.{
  ℕ, Bool, true, false, ◌&&◌, ◌||◌, not, if◌then◌else◌, ◌==◌, opt_eq, opt_lt, Option, some, none,
  is_some, is_none, List, [], ◌∷◌, any,
}
use mad_devs_note_taker.Base.Results.{Result, ok, err}
use mad_devs_note_taker.Models.{
  Db, Note, RecurrenceSeries, RecurringTrashAction, RecurringTrashActionMember,
}

-- The messages of the exceptions.
pub data Violation : Type 0 where
  sealed_action identity_changed incomplete_membership unsealed_action sealed_membership : Violation
  purged_note assigned_after_seal purged_series : Violation

abbrev pub is_member_of : RecurringTrashAction → Note → RecurringTrashActionMember → Bool
is_member_of a n m = (m.action_id == a.id) && (m.note_id == n.id)

abbrev pub is_in : RecurringTrashAction → RecurringTrashActionMember → Bool
is_in a m = m.action_id == a.id

-- A note that a sealed action must not have: `IS DISTINCT FROM` takes a null as unlike a value, and a
-- comparison with a null is not true.
abbrev pub is_foreign : RecurringTrashAction → Note → Bool
is_foreign a n =
    not (opt_eq n.series_id a.series_id)
    || opt_lt n.recurrence_key a.boundary_recurrence_key
    || not (opt_eq n.deleted_at a.trashed_at)
    || not (opt_eq n.current_recurring_trash_action_id a.id)
    || is_some n.purged_at
    || is_some n.superseded_at

-- A note that the action holds without a membership.
abbrev pub is_unlisted : Db → RecurringTrashAction → Note → Bool
is_unlisted s a n =
    opt_eq n.current_recurring_trash_action_id a.id && not (any (is_member_of a n) s.trash_members)

unfoldable pub is_complete : Db → RecurringTrashAction → Bool
is_complete s a =
    any (is_in a) s.trash_members
    && not (any (λ (n : Note). any (is_member_of a n) s.trash_members && is_foreign a n) s.notes)
    && not (any (is_unlisted s a) s.notes)

abbrev pub same_identity : RecurringTrashAction → RecurringTrashAction → Bool
same_identity old new =
    (new.id == old.id)
    && (new.series_id == old.series_id)
    && (new.boundary_recurrence_key == old.boundary_recurrence_key)
    && (new.trashed_at == old.trashed_at)

-- `nt_guard_trash_action`, for an update at the time `now`.
unfoldable pub guard_trash_action :
    ℕ → Db → RecurringTrashAction → RecurringTrashAction → Result Violation RecurringTrashAction
guard_trash_action now s old new =
    if is_some old.sealed_at
    then err sealed_action
    else if not (same_identity old new)
    then err identity_changed
    else if is_none new.sealed_at
    then ok new
    else if is_complete s old
    then ok (record new { sealed_at = some now })
    else err incomplete_membership

-- The same, for a deletion.
unfoldable pub guard_trash_action_deletion :
    RecurringTrashAction → Result Violation RecurringTrashAction
guard_trash_action_deletion old = if is_some old.sealed_at then err sealed_action else ok old

abbrev pub is_sealed : ℕ → RecurringTrashAction → Bool
is_sealed id a = (a.id == id) && is_some a.sealed_at

-- `nt_require_sealed_trash_action`, at the commit of a new action.
unfoldable pub require_sealed_trash_action :
    Db → RecurringTrashAction → Result Violation RecurringTrashAction
require_sealed_trash_action s new =
    if any (is_sealed new.id) s.trash_actions then ok new else err unsealed_action

-- `nt_guard_trash_member`, for a row that is inserted, changed or deleted.
unfoldable pub guard_trash_member :
    Db → RecurringTrashActionMember → Result Violation RecurringTrashActionMember
guard_trash_member s m =
    if any (is_sealed m.action_id) s.trash_actions then err sealed_membership else ok m

abbrev pub assigned : Option ℕ → Option ℕ → Option ℕ
assigned old none = none
assigned old (some a) = if opt_eq old a then none else some a

abbrev pub assigns_sealed : Db → Option ℕ → Bool
assigns_sealed s none = false
assigns_sealed s (some a) = any (is_sealed a) s.trash_actions

-- `nt_guard_note_lifecycle`, for an update and for a deletion.
unfoldable pub guard_note : Db → Note → Note → Result Violation Note
guard_note s old new =
    if is_some old.purged_at
    then err purged_note
    else if assigns_sealed s
        (assigned old.current_recurring_trash_action_id new.current_recurring_trash_action_id)
    then err assigned_after_seal
    else ok new

unfoldable pub guard_note_deletion : Note → Result Violation Note
guard_note_deletion old = if is_some old.purged_at then err purged_note else ok old

-- `nt_guard_series_lifecycle`, for an update or a deletion that gives `row`.
unfoldable pub guard_series :
    RecurrenceSeries → RecurrenceSeries → Result Violation RecurrenceSeries
guard_series old row = if is_some old.purged_at then err purged_series else ok row
