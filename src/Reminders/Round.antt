-- ===== src/Reminders/Round.antt =====
-- One rule of the note in `reconcile_reminders`: the round returns and keeps the loop's invariant.
use mad_devs_note_taker.Base.{
  ℕ, ◌+◌, ◌*◌, ◌-◌, ◌≤◌, ◌<◌, ◌≡◌, ◌≢◌, inl, inr, refl, ◌∙◌, Bool, true, false, not, ◌||◌, ◌&&◌,
  List, [], ◌∷◌, arith, All, All-imp, All-append, All-both, any, ◌==◌, ltb, Option, some, none,
  select, contains, Bool-cases,
}
use mad_devs_note_taker.Base.Apart.{
  Apart, Apart-select, Member, All-of, select-Member, Evolves, Evolves-append, Evolves-trans,
}
use mad_devs_note_taker.Base.Results.{ok}
use mad_devs_note_taker.Models.{Db, Note, ReminderRule, ReminderDelivery, is_open, is_cancelled}
use mad_devs_note_taker.Deliveries.{
  OtherSlot, write-Evolves, one_slot, Later, Later-refl, Later-trans,
}
use mad_devs_note_taker.Session.{minute, day, uuid4}
use mad_devs_note_taker.Session.Rules.{Returns, Returns-bind}
use mad_devs_note_taker.Reminders.{
  is_live, is_current, fresh_delivery, new_delivery, cancel_delivery, reopen_delivery,
  write_delivery, write_rule, current_delivery, cancel_open, refresh_delivery, settle_rule,
  reconcile_rule, rules_of, due_at,
}
use mad_devs_note_taker.Reminders.Invariant.{
  SameKeys, OtherRule, IsKeyed, NotAhead, write-IsKeyed, write-NotAhead, add-IsKeyed,
}

-- The longest reminder, in minutes (the presets are 10, 60 and 1440).
abbrev pub longest : ℕ
longest = 1440

due_at-returns : (t o : ℕ) → day ≤ t → o ≤ longest → due_at t o ≡ ok (t - o * minute)
unfolding due_at
due_at-returns t o h k = ground arith

pub cancel-Later :
    (now : ℕ) (d : ReminderDelivery) → is_open d.state ≡ true → Later d (cancel_delivery now d)
cancel-Later now d o = record {
  same_id = refl;
  same_rule = refl;
  same_cycle = refl;
  same_due = refl;
  reached = ground arith;
}

pub reopen-Later :
    (d : ReminderDelivery)
    → (is_open d.state || is_cancelled d.state) ≡ true
    → Later d (reopen_delivery d)
reopen-Later d o = record {
  same_id = refl;
  same_rule = refl;
  same_cycle = refl;
  same_due = refl;
  reached = ground arith;
}

module _ (note : Note) (start : Db) where
  -- The identifier is that of a rule of the note.
  abbrev pub mine : ℕ → Bool
  mine id = any (λ (r : ReminderRule). r.id == id) (rules_of note start)

  -- A delivery moves on, and only one of the note's own.
  pub record Moved (d e : ReminderDelivery) : Type 0 where
    pub later : Later d e
    pub others : mine d.reminder_rule_id ≡ false → e ≡ d

  pub record Todo (s : Db) (r : ReminderRule) : Type 0 where
    pub short : r.offset_minutes ≤ longest
    pub drawn : r.id < s.next_uuid
    pub not_ahead : NotAhead s.deliveries r
    pub own : mine r.id ≡ true

  -- Between two rounds, with the rules `rs` to come.
  pub record Round (rs : List ReminderRule) (s : Db) : Type 0 where
    pub keyed : IsKeyed s.next_uuid s.deliveries
    pub todo : All (Todo s) rs
    pub apart : Apart OtherRule rs
    pub evolves : Evolves Moved start.deliveries s.deliveries

  Moved-refl : (d : ReminderDelivery) → Moved d d
  Moved-refl d = record { later = Later-refl d; others = λ _. refl }

  Moved-trans : (d e f : ReminderDelivery) → Moved d e → Moved e f → Moved d f
  Moved-trans d e f h k = record {
    later = Later-trans d e f h.later k.later;
    others = λ o. k.others (rw h.later.same_rule o) ∙ h.others o;
  }

  pub Round-next :
      (r : ReminderRule) (rs : List ReminderRule) (s : Db) → Round (r ∷ rs) s → Round rs s
  Round-next r rs s h = record {
    keyed = h.keyed;
    todo = h.todo.1;
    apart = h.apart.1;
    evolves = h.evolves;
  }

  -- A rule's own row is no part of the invariant.
  pub write_rule-Round :
      (rs : List ReminderRule) (s : Db) (id : ℕ) (f : ReminderRule → ReminderRule)
      → Round rs s
      → Returns (λ _ s'. Round rs s') (write_rule id f s)
  unfolding write_rule
  write_rule-Round rs s id f h = record {
    keyed = h.keyed;
    todo =
        All-imp _ _
          (λ r t. record { short = t.short; drawn = t.drawn; not_ahead = t.not_ahead; own = t.own })
          rs h.todo;
    apart = h.apart;
    evolves = h.evolves;
  }

  -- A write to one delivery that moves it on.
  write_delivery-Round :
      (rs : List ReminderRule) (s : Db) (f : ReminderDelivery → ReminderDelivery)
      (d : ReminderDelivery)
      → SameKeys f
      → Member d s.deliveries
      → Moved d (f d)
      → Round rs s
      → Returns (λ _ s'. Round rs s') (write_delivery d.id f s)
  unfolding write_delivery
  write_delivery-Round rs s f d same m step h = record {
    keyed = write-IsKeyed s.next_uuid f _ s.deliveries same h.keyed;
    todo =
        All-imp _ _
          (λ r t. record {
            short = t.short;
            drawn = t.drawn;
            not_ahead = write-NotAhead f _ s.deliveries r same t.not_ahead;
            own = t.own;
          })
          rs h.todo;
    apart = h.apart;
    evolves =
        Evolves-trans Moved-trans h.evolves
          (write-Evolves Moved Moved-refl f d s.deliveries h.keyed.ids m step);
  }

  -- What the query for the current delivery gives.
  abbrev pub Found : ReminderRule → Db → Option ReminderDelivery → Type 0
  Found r s none = Unit
  Found r s (some d) = Member d s.deliveries × (d.reminder_rule_id ≡ r.id)

  pub current_delivery-Found :
      (r : ReminderRule) (s : Db)
      → IsKeyed s.next_uuid s.deliveries
      → Returns (λ o s'. (s' ≡ s) × Found r s o) (current_delivery r s)
  unfolding current_delivery
  current_delivery-Found r s k =
      elim (one_slot r.id r.current_cycle_number (select (is_current r) s.deliveries)
        (Apart-select OtherSlot (is_current r) s.deliveries k.slots)
        (All-of _ _ (λ d m. keys_of d (select-Member (is_current r) d s.deliveries m).1))) [
          | inl nothing ↦ rw nothing (refl, tt)
          | inr (d, e, m) ↦
              let (m', q) = select-Member (is_current r) d s.deliveries m in
              rw e (refl, (m', (keys_of d q).0))
        ]
    where
      keys_of :
          (d : ReminderDelivery)
          → is_current r d ≡ true
          → (d.reminder_rule_id ≡ r.id) × (d.cycle_number ≡ r.current_cycle_number)
      keys_of d q = ground arith

  Moved-own :
      (r : ReminderRule) (d e : ReminderDelivery)
      → mine r.id ≡ true
      → d.reminder_rule_id ≡ r.id
      → Later d e
      → Moved d e
  Moved-own r d e own same l = record { later = l; others = λ o. cc (o, own, same) }

  cancel_open-Round :
      (r : ReminderRule) (rs : List ReminderRule) (s : Db) (now : ℕ) (o : Option ReminderDelivery)
      → mine r.id ≡ true
      → Found r s o
      → Round rs s
      → Returns (λ _ s'. Round rs s') (cancel_open now o s)
  unfolding cancel_open
  cancel_open-Round r rs s now none own f h = h
  cancel_open-Round r rs s now (some d) own (m, same) h = elim (Bool-cases (is_open d.state)) [
    | inl o ↦ rw o (
        write_delivery-Round rs s (cancel_delivery now) d
          (record { id = λ _. refl; rule = λ _. refl; cycle = λ _. refl }) m
          (Moved-own r d (cancel_delivery now d) own same (cancel-Later now d o)) h)
    | inr c ↦ rw c h
  ]

  disable-Found :
      (r : ReminderRule) (rs : List ReminderRule) (s : Db) (g : ReminderRule → ReminderRule)
      (o : Option ReminderDelivery)
      → Found r s o
      → Round rs s
      → Returns (λ _ s'. Round rs s' × Found r s' o) (write_rule r.id g s)
  unfolding write_rule
  disable-Found r rs s g none f h = (write_rule-Round rs s r.id g h, tt)
  disable-Found r rs s g (some d) f h = (write_rule-Round rs s r.id g h, f)

  module _ (late : day ≤ note.starts_at) where
    refresh_delivery-Round :
        (r : ReminderRule) (rs : List ReminderRule) (s : Db) (now : ℕ) (o : Option ReminderDelivery)
        → mine r.id ≡ true
        → r.offset_minutes ≤ longest
        → Found r s o
        → Round rs s
        → Returns (λ _ s'. Round rs s') (refresh_delivery note r now o s)
    unfolding refresh_delivery
    refresh_delivery-Round r rs s now none own short f h = h
    refresh_delivery-Round r rs s now (some d) own short (m, same) h =
        elim (Bool-cases (is_open d.state || is_cancelled d.state)) [
          | inr c ↦ rw c h
          | inl o ↦
              rw (o, due_at-returns note.starts_at r.offset_minutes late short)
                (elim (Bool-cases
                  (is_live note && ltb now (note.starts_at - r.offset_minutes * minute))) [
                    | inl t ↦ rw t (
                        write_delivery-Round rs s reopen_delivery d
                          (record { id = λ _. refl; rule = λ _. refl; cycle = λ _. refl }) m
                          (Moved-own r d (reopen_delivery d) own same (reopen-Later d o)) h)
                    | inr u ↦ rw u (cancel_open-Round r rs s now (some d) own (m, same) h)
                  ])
        ]

    pub new_delivery-Round :
        (r : ReminderRule) (rs : List ReminderRule) (s : Db) (now : ℕ)
        → r.offset_minutes ≤ longest
        → r.id < s.next_uuid
        → All
            (λ (x : ReminderDelivery).
              x.reminder_rule_id ≡ r.id → x.cycle_number ≢ r.current_cycle_number)
            s.deliveries
        → All (OtherRule r) rs
        → Round rs s
        → Returns (λ _ s'. Round rs s') (new_delivery note r now s)
    unfolding new_delivery uuid4
    new_delivery-Round r rs s now short drawn free other h =
        rw (due_at-returns note.starts_at r.offset_minutes late short) (record {
          keyed = add-IsKeyed s.next_uuid _ s.deliveries h.keyed refl drawn free;
          todo =
              All-both _ _ _
                (λ q t ne. record {
                  short = t.short;
                  drawn = omega (arith, t.drawn);
                  not_ahead =
                      All-append _ s.deliveries
                        (fresh_delivery s.next_uuid note r
                            (note.starts_at - r.offset_minutes * minute) now
                          ∷ [])
                        t.not_ahead ((λ e. absurd (ne e)), tt);
                  own = t.own;
                })
                rs h.todo other;
          apart = h.apart;
          evolves = Evolves-trans Moved-trans h.evolves (Evolves-append Moved-refl s.deliveries _);
        })

    -- A rule of the note is settled, whichever of the branches it takes.
    settle_rule-Round :
        (offsets : List ℕ) (schedule_changed : Bool) (now : ℕ) (r : ReminderRule)
        (rs : List ReminderRule) (o : Option ReminderDelivery) (s : Db)
        → Found r s o
        → Round (r ∷ rs) s
        → Returns (λ _ s'. Round rs s') (settle_rule note offsets schedule_changed now r o s)
    unfolding settle_rule
    settle_rule-Round offsets schedule_changed now r rs o s f h =
        elim (Bool-cases (not (contains r.offset_minutes offsets))) [
          | inl dropped ↦ rw dropped (
              Returns-bind (λ _ s'. Round rs s' × Found r s' o) (λ _ s'. Round rs s')
                (write_rule r.id _) (λ _. cancel_open now o) s
                (disable-Found r rs s _ o f (Round-next r rs s h))
                (λ _ s' k. cancel_open-Round r rs s' now o h.todo.0.own k.1 k.0))
          | inr wanted ↦ rw wanted (elim (Bool-cases (schedule_changed || not r.enabled)) [
            | inr same ↦ rw same (
                refresh_delivery-Round r rs s now o h.todo.0.own h.todo.0.short f
                  (Round-next r rs s h))
            | inl changed ↦ rw changed (
                Returns-bind (λ _ s'. Round (r ∷ rs) s') (λ _ s'. Round rs s') (cancel_open now o) _
                  s (cancel_open-Round r (r ∷ rs) s now o h.todo.0.own f h)
                  (λ _ s' k.
                    Returns-bind (λ _ s''. Round (r ∷ rs) s'') (λ _ s''. Round rs s'')
                      (write_rule r.id _) _ s' (write_rule-Round (r ∷ rs) s' r.id _ k)
                      (λ _ s'' l.
                        new_delivery-Round
                          (record r { current_cycle_number = r.current_cycle_number + 1 }) rs s''
                          now l.todo.0.short l.todo.0.drawn
                          (All-imp _ _ (λ x le e c. absurd (omega (arith, le e, c))) s''.deliveries
                            l.todo.0.not_ahead)
                          l.apart.0 (Round-next r rs s'' l))))
          ])
        ]

    pub reconcile_rule-Round :
        (offsets : List ℕ) (schedule_changed : Bool) (now : ℕ) (r : ReminderRule)
        (rs : List ReminderRule) (s : Db)
        → Round (r ∷ rs) s
        → Returns (λ _ s'. Round rs s') (reconcile_rule note offsets schedule_changed now r s)
    unfolding reconcile_rule
    reconcile_rule-Round offsets schedule_changed now r rs s h =
        Returns-bind (λ o s'. (s' ≡ s) × Found r s o) (λ _ s'. Round rs s') (current_delivery r) _ s
          (current_delivery-Found r s h.keyed)
          (λ o s' k. rw k.0 (settle_rule-Round offsets schedule_changed now r rs o s k.1 h))
