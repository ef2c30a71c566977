-- ===== src/Api/TrashGroups.antt =====
-- `list_trash_groups` and `notifications` of backend/app/api/router.py: what the client lists page by page.
use mad_devs_note_taker.Base.{
  ℕ, Bool, ◌&&◌, ◌||◌, not, ltb, leb, ◌==◌, opt_eq, Option, some, none, is_none, is_some, List, [],
  ◌∷◌, ◌++◌, select, map, any, length,
}
use mad_devs_note_taker.Base.Tables.{order_by}
use mad_devs_note_taker.Schemas.{NoteResponse}
use mad_devs_note_taker.Models.{
  Db, Note, Notification, RecurringTrashAction, RecurringTrashActionMember,
}
use mad_devs_note_taker.Notes.{note_response}
use mad_devs_note_taker.Api.Queries.{Page, page_of}

abbrev pub newest_first : Notification → Notification → Bool
newest_first a b =
    ltb b.created_at a.created_at || ((a.created_at == b.created_at) && leb b.id a.id)

unfoldable pub notifications : ℕ → ℕ → Db → Page Notification
unfolding page_of
notifications page page_size s = record {
  items = page_of page page_size (order_by newest_first s.notifications);
  total = length s.notifications;
  page = page;
  page_size = page_size;
}

-- An entry of the trash: a sealed action, a note of the older kind, or any other deleted note.
pub data TrashRow : Type 0 where
  action : RecurringTrashAction → TrashRow
  legacy_occurrence single_note : Note → TrashRow

abbrev time_or : Option ℕ → ℕ
time_or none = 0
time_or (some t) = t

abbrev pub trashed_at : TrashRow → ℕ
trashed_at (action a) = a.trashed_at
trashed_at (legacy_occurrence n) = time_or n.deleted_at
trashed_at (single_note n) = time_or n.deleted_at

abbrev pub kind_rank : TrashRow → ℕ
kind_rank (action a) = 0
kind_rank (legacy_occurrence n) = 1
kind_rank (single_note n) = 2

abbrev pub row_id : TrashRow → ℕ
row_id (action a) = a.id
row_id (legacy_occurrence n) = n.id
row_id (single_note n) = n.id

-- The latest first, then by kind and identifier.
abbrev pub row_before : TrashRow → TrashRow → Bool
row_before a b =
    ltb (trashed_at b) (trashed_at a)
    || ((trashed_at a == trashed_at b)
        && (ltb (kind_rank a) (kind_rank b)
            || ((kind_rank a == kind_rank b) && leb (row_id a) (row_id b))))

-- Whether the note ever was in an action, and whether it is in this one.
abbrev pub has_history : Db → Note → Bool
has_history s n = any (λ (m : RecurringTrashActionMember). m.note_id == n.id) s.trash_members

abbrev pub is_member_of : Db → ℕ → Note → Bool
is_member_of s action_id n =
    any (λ (m : RecurringTrashActionMember). (m.action_id == action_id) && (m.note_id == n.id))
      s.trash_members

abbrev pub is_open_action : Db → RecurringTrashAction → Bool
is_open_action s a =
    is_some a.sealed_at
    && any (λ (n : Note). is_member_of s a.id n && opt_eq n.current_recurring_trash_action_id a.id)
        s.notes

abbrev pub is_legacy_row : Db → Note → Bool
is_legacy_row s n =
    is_some n.series_id
    && is_some n.deleted_at
    && is_some n.series_trashed_at
    && is_none n.superseded_at
    && is_none n.purged_at
    && not (has_history s n)

abbrev pub is_single_row : Db → Note → Bool
is_single_row s n =
    is_some n.deleted_at
    && is_none n.superseded_at
    && is_none n.purged_at
    && is_none n.current_recurring_trash_action_id
    && (is_none n.series_id || is_none n.series_trashed_at || has_history s n)

unfoldable pub trash_rows : Db → List TrashRow
trash_rows s = order_by row_before (
    map action (select (is_open_action s) s.trash_actions)
    ++ (map legacy_occurrence (select (is_legacy_row s) s.notes)
        ++ map single_note (select (is_single_row s) s.notes)))

pub data TrashItem : Type 0 where
  series_action : ℕ → ℕ → ℕ → ℕ → ℕ → NoteResponse → TrashItem
  occurrence_item note_item : NoteResponse → ℕ → TrashItem

abbrev key_before : Note → Note → Bool
key_before a b =
    ltb (time_or a.recurrence_key) (time_or b.recurrence_key)
    || ((time_or a.recurrence_key == time_or b.recurrence_key) && leb a.id b.id)

abbrev pub action_item : RecurringTrashAction → List Note → Db → List TrashItem
action_item a [] s = []
action_item a (n ∷ ns) s =
    series_action a.id a.series_id a.boundary_recurrence_key a.trashed_at (length (n ∷ ns))
      (note_response n s)
    ∷ []

-- A listed action has a member: the list is of one item.
unfoldable pub trash_item : Db → TrashRow → List TrashItem
trash_item s (action a) =
    action_item a (order_by key_before (select (is_member_of s a.id) s.notes)) s
trash_item s (legacy_occurrence n) = occurrence_item (note_response n s) (time_or n.deleted_at) ∷ []
trash_item s (single_note n) = note_item (note_response n s) (time_or n.deleted_at) ∷ []

abbrev pub trash_items : Db → List TrashRow → List TrashItem
trash_items s [] = []
trash_items s (r ∷ rows) = trash_item s r ++ trash_items s rows

unfoldable pub list_trash_groups : ℕ → ℕ → Db → Page TrashItem
unfolding page_of
list_trash_groups page page_size s = record {
  items = trash_items s (page_of page page_size (trash_rows s));
  total = length (trash_rows s);
  page = page;
  page_size = page_size;
}
