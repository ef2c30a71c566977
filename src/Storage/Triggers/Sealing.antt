-- ===== src/Storage/Triggers/Sealing.antt =====
-- The members of a new trash action are complete, as the seal's trigger wants them.
use mad_devs_note_taker.Base.{
  ℕ, ap, ◌≡◌, refl, ◌∙◌, Bool, true, false, not, ◌&&◌, ◌==◌, ==_refl, opt_eq, List, [], ◌∷◌, map,
  any, contains, select, All, All-imp, Some, Bool-cases, inl, inr, ◌⊎◌, arith,
}
use mad_devs_note_taker.Base.Tables.{update_where}
use mad_devs_note_taker.Base.Apart.{Apart, Member, All-at, select-Member}
use mad_devs_note_taker.Base.Keyed.{Other, same_key}
use mad_devs_note_taker.Models.{Db, Note, RecurringTrashAction, RecurringTrashActionMember}
use mad_devs_note_taker.Session.{for_each}
use mad_devs_note_taker.Session.Rules.{IfReturns, IfReturns-bind, IfReturns-imp}
use mad_devs_note_taker.Notes.{write_note, offsets_of}
use mad_devs_note_taker.Reminders.{reconcile_reminders}
use mad_devs_note_taker.Reminders.Frame.{trash_view, Frames-reconcile_reminders}
use mad_devs_note_taker.Api.Series.Trash.{held, hold_note}
use mad_devs_note_taker.Storage.Triggers.{is_member_of, is_in, is_foreign, is_complete}

abbrev pub note_id : Note → ℕ
note_id n = n.id

pub any-false :
    {A : Type 0} (p : A → Bool) (xs : List A) → All (λ x. p x ≡ false) xs → any p xs ≡ false
any-false p [] h = refl
any-false p (x ∷ xs) h = rw (h.0, any-false p xs h.1) refl

module _ (a : RecurringTrashAction) (mem : List RecurringTrashActionMember) where
  -- In the trash by the action, or nothing to it.
  abbrev pub IsReady : Note → Type 0
  IsReady n = (is_foreign a n ≡ false) × (any (is_member_of a n) mem ≡ true)

  abbrev pub IsIdle : Note → Type 0
  IsIdle n =
      (opt_eq n.current_recurring_trash_action_id a.id ≡ false)
      × (any (is_member_of a n) mem ≡ false)

  -- Between two notes, with those of `rest` to come.
  pub record Holding (rest : List Note) (t : Db) : Type 0 where
    pub members : t.trash_members ≡ mem
    pub rows : All (λ n. IsReady n ⊎ (IsIdle n ⊎ Member n rest)) t.notes
    pub ready : All (λ n. IsReady (held a.id a.trashed_at n)) rest

  written :
      (n : Note) (rest : List Note) (xs : List Note)
      → IsReady (held a.id a.trashed_at n)
      → All (λ x. IsReady x ⊎ (IsIdle x ⊎ Member x (n ∷ rest))) xs
      → All
          (λ x. IsReady x ⊎ (IsIdle x ⊎ Member x rest))
          (update_where (λ (x : Note). x.id == n.id) (λ _. held a.id a.trashed_at n) xs)
  written n rest [] r h = tt
  written n rest (x ∷ xs) r h = (
    elim (Bool-cases (x.id == n.id)) [
      | inl e ↦ rw e (inl r)
      | inr e ↦ rw e (elim (h.0) [
        | inl ready ↦ inl ready
        | inr (inl idle) ↦ inr (inl idle)
        | inr (inr (inl same)) ↦ absurd (other same e)
        | inr (inr (inr later)) ↦ inr (inr later)
      ])
    ],
    written n rest xs r h.1,
  )
    where
      other : n ≡ x → (x.id == n.id) ≡ false → ⊥
      other same e = let t : (x.id == n.id) ≡ true = rw same (==_refl x.id) in absurd (cc (t, e))

  hold_note-Holding :
      (n : Note) (rest : List Note) (s : Db)
      → Holding (n ∷ rest) s
      → IfReturns (λ _ t. Holding rest t) (hold_note a.id a.trashed_at n s)
  unfolding hold_note write_note
  hold_note-Holding n rest s h =
      let t : Db = record s {
        notes = update_where (λ (x : Note). x.id == n.id) (λ _. held a.id a.trashed_at n) s.notes;
      } in
      IfReturns-imp (λ _ u. trash_view u ≡ trash_view t) (λ _ u. Holding rest u)
        (reconcile_reminders (held a.id a.trashed_at n) (offsets_of n.id t) false a.trashed_at t)
        (λ _ u e. record {
          members = ap (λ v. v.2) e ∙ h.members;
          rows =
              let same : u.notes ≡ t.notes = ap (λ v. v.0) e in
              rw same (written n rest s.notes h.ready.0 h.rows);
          ready = h.ready.1;
        })
        ((Frames-reconcile_reminders (held a.id a.trashed_at n) (offsets_of n.id t) false
            a.trashed_at).at
          t)

  pub hold_notes-Holding :
      (rest : List Note) (s : Db)
      → Holding rest s
      → IfReturns (λ _ t. Holding [] t) (for_each rest (hold_note a.id a.trashed_at) s)
  unfolding for_each
  hold_notes-Holding [] s h = h
  hold_notes-Holding (n ∷ rest) s h =
      IfReturns-bind (λ _ t. Holding [] t) (λ _ t. Holding rest t) (hold_note a.id a.trashed_at n) _
        s (hold_note-Holding n rest s h) (λ _ t k. hold_notes-Holding rest t k)

  -- Neither of what the trigger looks for.
  settled :
      (x : Note)
      → IsReady x ⊎ (IsIdle x ⊎ Member x [])
      → ((any (is_member_of a x) mem && is_foreign a x) ≡ false)
        × ((opt_eq x.current_recurring_trash_action_id a.id && not (any (is_member_of a x) mem))
            ≡ false)
  settled x (inl (f, m)) = (rw (m, f) refl, rw m (and_false _))
    where
      and_false : (b : Bool) → (b && false) ≡ false
      and_false b = ground arith
  settled x (inr (inl (c, m))) = (rw m refl, rw c refl)
  settled x (inr (inr n)) = absurd n

  pub Holding-is_complete :
      (t : Db) → Holding [] t → any (is_in a) mem ≡ true → is_complete t a ≡ true
  unfolding is_complete
  Holding-is_complete t h filled =
      let foreign : any (λ (n : Note). any (is_member_of a n) mem && is_foreign a n) t.notes
          ≡ false =
        any-false _ t.notes (All-imp _ _ (λ x k. (settled x k).0) t.notes h.rows) in
      let unlisted : any
            (λ (n : Note).
              opt_eq n.current_recurring_trash_action_id a.id && not (any (is_member_of a n) mem))
            t.notes
          ≡ false =
        any-false _ t.notes (All-imp _ _ (λ x k. (settled x k).1) t.notes h.rows) in
      rw (h.members, filled, foreign, unlisted) refl

-- Which notes the identifiers stand for.
module _ (p : Note → Bool) (notes : List Note) where
  named :
      (k : ℕ) (ns : List Note)
      → contains k (map (λ (n : Note). n.id) ns) ≡ true
      → Some (λ (n : Note). (k == n.id) ≡ true) ns
  named k [] h = absurd cc
  named k (n ∷ ns) h = elim (Bool-cases (k == n.id)) [
    | inl t ↦ inl t
    | inr f ↦ inr (named k ns (rw f at h))
  ]

  selected-Member :
      (ns : List Note)
      → ((y : Note) → Member y ns → Member y notes × (p y ≡ true))
      → (k : ℕ) → Some (λ (n : Note). (k == n.id) ≡ true) ns
      → (y : Note) × Member y notes × (p y ≡ true) × ((k == y.id) ≡ true)
  selected-Member [] f k h = absurd h
  selected-Member (n ∷ ns) f k (inl t) = let (m, q) = f n (inl refl) in (n, m, q, t)
  selected-Member (n ∷ ns) f k (inr h) = selected-Member ns (λ y m. f y (inr m)) k h

  -- With distinct identifiers, a row whose identifier was selected was selected.
  pub contains-selected :
      (x : Note)
      → Apart (Other note_id) notes
      → Member x notes
      → contains x.id (map (λ (n : Note). n.id) (select p notes)) ≡ true
      → p x ≡ true
  contains-selected x apart m c =
      let (y, n, q, e) =
        selected-Member (select p notes) (λ y m. select-Member p y notes m) x.id
          (named x.id (select p notes) c) in
      let same : x ≡ y =
        All-at (λ z. (z.id == y.id) ≡ true → z ≡ y) x notes (same_key note_id y notes apart n) m
          e in
      rw same q
