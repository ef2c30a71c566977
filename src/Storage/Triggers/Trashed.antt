-- ===== src/Storage/Triggers/Trashed.antt =====
-- `trash_series_portion` satisfies the triggers on its action: when it is sealed, and at the commit.
use mad_devs_note_taker.Base.{
  ℕ, suc, ap, ◌≡◌, refl, ◌∙◌, Bool, true, false, ◌==◌, ==_refl, Option, some, none, is_some, is_nil,
  List, [], ◌∷◌, ◌++◌, map, select, Some, Bool-cases, inl, inr, String,
}
use mad_devs_note_taker.Base.Tables.{update_where}
use mad_devs_note_taker.Models.{Db, Note, RecurrenceSeries, RecurringTrashAction}
use mad_devs_note_taker.Schemas.{SeriesPortionRequest}
use mad_devs_note_taker.Session.{M, ◌>>=◌, ◌>>◌, uuid4, utcnow}
use mad_devs_note_taker.Session.Rules.{IfReturns, IfReturns-bind, IfReturns-imp, IfReturns-both}
use mad_devs_note_taker.Session.Frames.{Frames, frames_rules}
use mad_devs_note_taker.Notes.{add_event, write_series, write_note}
use mad_devs_note_taker.Reminders.Frame.{trash_view, Frames-reconcile_reminders}
use mad_devs_note_taker.Api.Series.{locked_series}
use mad_devs_note_taker.Api.Series.Trash.{
  is_candidate, portion_boundary, add_action, hold_note, fill_action, finish_series, seal_action,
  trash_series_portion,
}
use mad_devs_note_taker.Storage.Triggers.{is_complete}
use mad_devs_note_taker.Storage.Triggers.Filling.{IsUnused, ids, fill_action-is_complete}

abbrev all_tables : Db → Db
all_tables s = s

abbrev actions_of : Db → List RecurringTrashAction
actions_of s = s.trash_actions

Frames-locked_series :
    (id : ℕ) (expected : Option ℕ) → Frames all_tables (locked_series id expected)
unfolding locked_series
Frames-locked_series id expected = search (frames_rules)

Frames-portion_boundary :
    (series : RecurrenceSeries) (o : Option ℕ) (b : Bool)
    → Frames all_tables (portion_boundary series o b)
unfolding portion_boundary
Frames-portion_boundary series o b = search (frames_rules) depth 10

Frames-add_event :
    (type : String) (id version : ℕ) (series_id : Option ℕ)
    → Frames trash_view (add_event type id version series_id)
unfolding add_event
Frames-add_event type id version series_id = search (frames_rules)

Frames-finish_series :
    (series : RecurrenceSeries) (now : ℕ) → Frames trash_view (finish_series series now)
unfolding finish_series write_series
Frames-finish_series series now = search (frames_rules, Frames-add_event) depth 10

Frames-actions : {A : Type 0} (m : M A) → Frames trash_view m → Frames actions_of m
Frames-actions m f = record {
  at = λ s.
      IfReturns-imp (λ _ t. trash_view t ≡ trash_view s) (λ _ t. actions_of t ≡ actions_of s) (m s)
        (λ _ t e. ap (λ v. v.1) e) (f.at s);
}

Frames-hold_note : (id now : ℕ) (note : Note) → Frames actions_of (hold_note id now note)
unfolding hold_note write_note
Frames-hold_note id now note =
    search (frames_rules, Frames-actions, Frames-reconcile_reminders) depth 10

Frames-fill_action :
    (a : RecurringTrashAction) (ids : List ℕ) → Frames actions_of (fill_action a ids)
unfolding fill_action
Frames-fill_action a ids = search (frames_rules, Frames-hold_note) depth 10

-- A sealed action with the identifier, whose members are complete.
abbrev pub IsSealed : ℕ → Db → Type 0
IsSealed id t =
    Some
      (λ (a : RecurringTrashAction).
        (a.id ≡ id) × (is_complete t a ≡ true) × (is_some a.sealed_at ≡ true))
      t.trash_actions

module _ (a : RecurringTrashAction) (at : ℕ) where
  -- The seal of the last action.
  sealed_last :
      (P : RecurringTrashAction → Type 0)
      → P (record a { sealed_at = some at })
      → (xs : List RecurringTrashAction)
      → Some P (
          update_where
            (λ (x : RecurringTrashAction). x.id == a.id)
            (λ x. record x { sealed_at = some at })
            (xs ++ a ∷ []))
  sealed_last P p [] = inl (rw (==_refl a.id) p)
  sealed_last P p (x ∷ xs) = inr (sealed_last P p xs)

  seal_action-IsSealed :
      (xs : List RecurringTrashAction) (t : Db)
      → t.trash_actions ≡ xs ++ a ∷ []
      → is_complete t a ≡ true
      → IfReturns (λ _ u. IsSealed a.id u) (seal_action a.id at t)
  unfolding seal_action is_complete
  seal_action-IsSealed xs t e c = rw e (sealed_last _ (refl, c, refl) xs)

  complete_later :
      (t u : Db) → trash_view u ≡ trash_view t → is_complete t a ≡ true → is_complete u a ≡ true
  unfolding is_complete
  complete_later t u e c =
      let notes : u.notes ≡ t.notes = ap (λ v. v.0) e in
      let members : u.trash_members ≡ t.trash_members = ap (λ v. v.2) e in rw (notes, members) c

-- From the filled action to the end of the transaction.
closing :
    (series : RecurrenceSeries) (a : RecurringTrashAction) (xs : List RecurringTrashAction) (t : Db)
    → t.trash_actions ≡ xs ++ a ∷ []
    → is_complete t a ≡ true
    → IfReturns
        (λ _ u. IsSealed a.id u)
        ((utcnow >>= λ at. finish_series series a.trashed_at >> seal_action a.id at) t)
unfolding utcnow is_complete
closing series a xs t e c =
    let t1 : Db = record t { reads = suc t.reads } in
    IfReturns-bind (λ _ u. IsSealed a.id u) (λ _ u. trash_view u ≡ trash_view t1)
      (finish_series series a.trashed_at) _ t1 ((Frames-finish_series series a.trashed_at).at t1)
      (λ _ u v.
        seal_action-IsSealed a (t.clock t.reads) xs u (ap (λ w. w.1) v ∙ e)
          (complete_later a (t.clock t.reads) t1 u v c))

opened :
    (series : RecurrenceSeries) (boundary : ℕ) (s : Db)
    → IsUnused s.next_uuid s
    → is_nil (map (λ (n : Note). n.id) (select (is_candidate series.id boundary) s.notes)) ≡ false
    → IfReturns
        (λ _ t. IsSealed s.next_uuid t)
        ((add_action series.id boundary >>= λ action.
            fill_action action
              (map (λ (n : Note). n.id) (select (is_candidate series.id boundary) s.notes))
            >> (utcnow >>= λ at.
                finish_series series action.trashed_at >> seal_action action.id at))
          s)
unfolding add_action uuid4 utcnow
opened series boundary s h some_ids =
    let a : RecurringTrashAction = record {
      id = s.next_uuid;
      series_id = series.id;
      boundary_recurrence_key = boundary;
      trashed_at = s.clock s.reads;
      sealed_at = none;
    } in
    let u : Db = record s {
      next_uuid = suc s.next_uuid;
      reads = suc s.reads;
      trash_actions = s.trash_actions ++ a ∷ [];
    } in
    let k : IsUnused a.id u = record { keys = h.keys; holders = h.holders; members = h.members } in
    IfReturns-bind (λ _ t. IsSealed s.next_uuid t)
      (λ _ t. (is_complete t a ≡ true) × (t.trash_actions ≡ u.trash_actions))
      (fill_action a (ids a u k)) _ u
      (IfReturns-both (λ _ t. is_complete t a ≡ true) (λ _ t. t.trash_actions ≡ u.trash_actions)
        (fill_action a (ids a u k) u) (fill_action-is_complete a u k some_ids)
        ((Frames-fill_action a (ids a u k)).at u))
      (λ _ t p. closing series a s.trash_actions t p.1 p.0)

-- Where nothing refers to the next identifier yet, a portion that is moved to the trash leaves a sealed action
-- of that identifier whose members are complete as the trigger on actions demands.
pub trash_series_portion-IsSealed :
    (series_id : ℕ) (payload : SeriesPortionRequest) (s : Db)
    → IsUnused s.next_uuid s
    → IfReturns (λ _ t. IsSealed s.next_uuid t) (trash_series_portion series_id payload s)
unfolding trash_series_portion
trash_series_portion-IsSealed series_id payload s h =
    IfReturns-bind (λ _ t. IsSealed s.next_uuid t) (λ _ t. t ≡ s)
      (locked_series series_id (some payload.series_version)) _ s
      ((Frames-locked_series series_id (some payload.series_version)).at s)
      (λ series t e. rw e (
        IfReturns-bind (λ _ t. IsSealed s.next_uuid t) (λ _ t. t ≡ s)
          (portion_boundary series payload.recurrence_key false) _ s
          ((Frames-portion_boundary series payload.recurrence_key false).at s)
          (λ boundary t e.
            rw e
              (elim (Bool-cases (
                is_nil
                  (map (λ (n : Note). n.id) (select (is_candidate series.id boundary) s.notes)))) [
                    | inl t ↦ rw t tt
                    | inr f ↦ rw f (opened series boundary s h f)
                  ]))))
