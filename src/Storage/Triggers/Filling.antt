-- ===== src/Storage/Triggers/Filling.antt =====
-- Filling a new trash action makes it complete.
use mad_devs_note_taker.Base.{
  ℕ, ◌≡◌, refl, sym, Bool, true, false, not, ◌&&◌, ◌==◌, ==_refl, opt_eq, is_none, is_nil, List, [],
  ◌∷◌, ◌++◌, map, any, contains, select, length, All, All-imp, Bool-cases, inl, inr, ◌⊎◌, arith,
}
use mad_devs_note_taker.Base.Tables.{order_by, insert_by, All-order_by}
use mad_devs_note_taker.Base.Apart.{Apart, Member, All-of, All-at, select-Member, Member-select}
use mad_devs_note_taker.Base.Keyed.{Other, same_key}
use mad_devs_note_taker.Models.{Db, Note, RecurringTrashAction, RecurringTrashActionMember}
use mad_devs_note_taker.Session.{for_each}
use mad_devs_note_taker.Session.Rules.{IfReturns, IfReturns-imp}
use mad_devs_note_taker.Api.Series.Trash.{by_id, is_candidate, held, hold_note, fill_action}
use mad_devs_note_taker.Storage.Triggers.{is_member_of, is_in, is_foreign, is_complete}
use mad_devs_note_taker.Storage.Triggers.Sealing.{
  note_id, IsReady, IsIdle, Holding, hold_notes-Holding, Holding-is_complete, contains-selected,
}

Member-insert_by :
    (le : Note → Note → Bool) (x y : Note) (ys : List Note)
    → (x ≡ y) ⊎ Member y ys
    → Member y (insert_by le x ys)
Member-insert_by le x y [] (inl e) = inl e
Member-insert_by le x y [] (inr m) = absurd m
Member-insert_by le x y (z ∷ zs) (inl e) =
    let rest = Member-insert_by le x y zs (inl e) in
    elim (Bool-cases (le x z)) [ inl t ↦ rw t (inl e) | inr f ↦ rw f (inr rest) ]
Member-insert_by le x y (z ∷ zs) (inr (inl e)) = elim (Bool-cases (le x z)) [
  | inl t ↦ rw t (inr (inl e))
  | inr f ↦ rw f (inl e)
]
Member-insert_by le x y (z ∷ zs) (inr (inr m)) =
    let rest = Member-insert_by le x y zs (inr m) in
    elim (Bool-cases (le x z)) [ inl t ↦ rw t (inr (inr m)) | inr f ↦ rw f (inr rest) ]

Member-order_by :
    (le : Note → Note → Bool) (y : Note) (xs : List Note) → Member y xs → Member y (order_by le xs)
Member-order_by le y (x ∷ xs) (inl e) = Member-insert_by le x y (order_by le xs) (inl e)
Member-order_by le y (x ∷ xs) (inr m) =
    Member-insert_by le x y (order_by le xs) (inr (Member-order_by le y xs m))
Member-order_by le y [] m = m

-- No note and no membership refers to the identifier; the identifiers of notes are distinct.
pub record IsUnused (id : ℕ) (s : Db) : Type 0 where
  pub keys : Apart (Other note_id) s.notes
  pub holders : All (λ (n : Note). opt_eq n.current_recurring_trash_action_id id ≡ false) s.notes
  pub members :
      All (λ (m : RecurringTrashActionMember). (m.action_id == id) ≡ false) s.trash_members

nonempty :
    (xs : List Note) (ys : List ℕ)
    → not (length xs == length ys) ≡ false
    → is_nil ys ≡ false
    → is_nil xs ≡ false
nonempty [] [] h k = absurd cc
nonempty [] (y ∷ ys) h k = ground (arith, h)
nonempty (x ∷ xs) ys h k = refl

-- What the action has, and what it gets.
module _ (a : RecurringTrashAction) where
  abbrev membership : Note → RecurringTrashActionMember
  membership n = record { action_id = a.id; note_id = n.id }

  joined :
      (n : Note) (ms : List RecurringTrashActionMember) (ns : List Note)
      → Member n ns
      → any (is_member_of a n) (ms ++ map membership ns) ≡ true
  joined n (m ∷ ms) ns h = ground (arith, joined n ms ns h)
  joined n [] (x ∷ ns) (inl e) =
      let t : (x.id == n.id) ≡ true = rw e (==_refl n.id) in rw (t, ==_refl a.id) refl
  joined n [] (x ∷ ns) (inr h) = ground (arith, joined n [] ns h)
  joined n [] [] h = absurd h

  apart_from :
      (x : Note) (ms : List RecurringTrashActionMember) (ns : List Note)
      → All (λ m. is_in a m ≡ false) ms
      → All (λ (n : Note). (n.id == x.id) ≡ false) ns
      → any (is_member_of a x) (ms ++ map membership ns) ≡ false
  apart_from x (m ∷ ms) ns h k = ground (arith, h.0, apart_from x ms ns h.1 k)
  apart_from x [] (n ∷ ns) h k = ground (arith, k.0, apart_from x [] ns h k.1)
  apart_from x [] [] h k = refl

  some_member :
      (ms : List RecurringTrashActionMember) (ns : List Note)
      → is_nil ns ≡ false
      → any (is_in a) (ms ++ map membership ns) ≡ true
  some_member (m ∷ ms) ns h = ground (arith, some_member ms ns h)
  some_member [] (n ∷ ns) h = rw (==_refl a.id) refl
  some_member [] [] h = absurd cc

  module _ (s : Db) (h : IsUnused a.id s) where
    abbrev pub ids : List ℕ
    ids =
        map (λ (n : Note). n.id)
          (select (is_candidate a.series_id a.boundary_recurrence_key) s.notes)

    abbrev is_locked : Note → Bool
    is_locked n =
        contains n.id ids && is_none n.deleted_at && is_none n.superseded_at && is_none n.purged_at

    abbrev cand : List Note
    cand = order_by by_id (select is_locked s.notes)

    abbrev mem : List RecurringTrashActionMember
    mem = s.trash_members ++ map membership cand

    candidate : All (λ n. Member n s.notes × (is_locked n ≡ true)) cand
    candidate =
        All-order_by _ by_id (select is_locked s.notes)
          (All-of _ (select is_locked s.notes) (λ n m. select-Member is_locked n s.notes m))

    started : (x : Note) → Member x s.notes → IsReady a mem x ⊎ (IsIdle a mem x ⊎ Member x cand)
    started x m = elim (Bool-cases (is_locked x)) [
      | inl t ↦ inr (
          inr (
            Member-order_by by_id x (select is_locked s.notes)
              (Member-select is_locked x s.notes m t)))
      | inr f ↦ inr (
          inl (
            All-at _ x s.notes h.holders m,
            apart_from x s.trash_members cand h.members
                (All-imp _ _ (λ n k. another n k.0 k.1 f) cand candidate),
          ))
    ]
      where
        another :
            (n : Note)
            → Member n s.notes
            → is_locked n ≡ true
            → is_locked x ≡ false
            → (n.id == x.id) ≡ false
        another n k t f = elim (Bool-cases (n.id == x.id)) [
          | inr other ↦ other
          | inl e ↦
              let same : n ≡ x =
                All-at (λ (z : Note). (z.id == x.id) ≡ true → z ≡ x) n s.notes
                  (same_key note_id x s.notes h.keys m) k e in
              let t' : is_locked x ≡ true = rw (sym same) t in absurd (cc (f, t'))
        ]

    fits :
        (n : Note)
        → is_candidate a.series_id a.boundary_recurrence_key n ≡ true
        → is_locked n ≡ true
        → is_foreign a (held a.id a.trashed_at n) ≡ false
    fits n c l = ground (arith, c, l)

    filled-Holding : Holding a mem cand (record s { trash_members = mem })
    filled-Holding = record {
      members = refl;
      rows = All-of _ s.notes started;
      ready = All-of _ cand (λ n m.
          let (k, l) = All-at _ n cand candidate m in
          (
            fits n
                (contains-selected (is_candidate a.series_id a.boundary_recurrence_key) s.notes n
                  h.keys k (ground (arith, l)))
                l,
            joined n s.trash_members cand m,
          ));
    }

    -- Where an unused action is filled with the notes of its portion, it is complete.
    pub fill_action-is_complete :
        is_nil ids ≡ false → IfReturns (λ _ t. is_complete t a ≡ true) (fill_action a ids s)
    unfolding fill_action
    fill_action-is_complete some_ids = elim (Bool-cases (not (length cand == length ids))) [
      | inl t ↦ rw t tt
      | inr f ↦ rw f (
          IfReturns-imp (λ _ t. Holding a mem [] t) (λ _ t. is_complete t a ≡ true)
            (for_each cand (hold_note a.id a.trashed_at) (record s { trash_members = mem }))
            (λ _ t k.
              Holding-is_complete a mem t k
                (some_member s.trash_members cand (nonempty cand ids f some_ids)))
            (hold_notes-Holding a mem cand (record s { trash_members = mem }) filled-Holding))
    ]
