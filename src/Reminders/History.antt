-- ===== src/Reminders/History.antt =====
-- `reconcile_reminders` returns, keeps the tables' keys, and moves no delivery backwards.
use mad_devs_note_taker.Base.{
  ℕ, ◌≤◌, ◌<◌, ◌≡◌, refl, Bool, List, [], ◌∷◌, arith, All, All-imp, any, contains, if◌then◌else◌,
  true, false, inl, inr, ◌==◌, ==_refl, sym, All-select,
}
use mad_devs_note_taker.Base.Tables.{All-order_by}
use mad_devs_note_taker.Schemas.{distinct}
use mad_devs_note_taker.Base.Apart.{
  Apart, Apart-select, Apart-order_by, Member, All-of, All-at, Evolves, Evolves-refl,
}
use mad_devs_note_taker.Models.{Db, Note, ReminderRule}
use mad_devs_note_taker.Session.{day, for_each, uuid4}
use mad_devs_note_taker.Session.Rules.{Returns, Returns-bind, Returns-imp, Returns-for_each}
use mad_devs_note_taker.Deliveries.{Later-refl}
use mad_devs_note_taker.Reminders.{
  rules_of, missing_offsets, add_rule, reconcile_rule, reconcile_reminders,
}
use mad_devs_note_taker.Reminders.Invariant.{OtherRule, IsKeyed, NotAhead}
use mad_devs_note_taker.Reminders.Round.{
  longest, Round, Moved, new_delivery-Round, reconcile_rule-Round,
}

-- The tables before the call: what their constraints and the earlier calls guarantee.
pub record IsReady (offsets : List ℕ) (s : Db) : Type 0 where
  pub keyed : IsKeyed s.next_uuid s.deliveries
  pub apart : Apart OtherRule s.rules
  pub short : All (λ (r : ReminderRule). r.offset_minutes ≤ longest) s.rules
  pub drawn : All (λ (r : ReminderRule). r.id < s.next_uuid) s.rules
  pub not_ahead : All (NotAhead s.deliveries) s.rules
  pub wanted : All (λ (o : ℕ). o ≤ longest) offsets

All-distinct : (P : ℕ → Type 0) (xs : List ℕ) → All P xs → All P (distinct xs)
unfolding distinct
All-distinct P [] h = h
All-distinct P (x ∷ xs) h =
    elim (contains x xs) as (λ b. All P (if b then distinct xs else x ∷ distinct xs)) [
      | true ↦ All-distinct P xs h.1
      | false ↦ (h.0, All-distinct P xs h.1)
    ]

any-Member :
    (id : ℕ) (r : ReminderRule) (rs : List ReminderRule)
    → r.id ≡ id
    → Member r rs
    → any (λ (q : ReminderRule). q.id == id) rs ≡ true
any-Member id r [] e m = absurd m
any-Member id r (q ∷ rs) e (inl p) = let t : (q.id == id) ≡ true = rw (p, e) (==_refl id) in rw t
any-Member id r (q ∷ rs) e (inr m) = ground (arith, any-Member id r rs e m)

module _ (note : Note) (start : Db) (late : day ≤ note.starts_at) where
  add_rule-Round :
      (now o : ℕ) (s : Db)
      → o ≤ longest
      → Round note start [] s
      → Returns (λ _ s'. Round note start [] s') (add_rule note now o s)
  unfolding add_rule uuid4
  add_rule-Round now o s short h =
      new_delivery-Round note start late _ [] _ now short (omega arith)
        (All-imp _ _ (λ d k e. absurd (omega (arith, k.1, e))) s.deliveries h.keyed.drawn) tt
        (record {
          keyed = record {
            ids = h.keyed.ids;
            slots = h.keyed.slots;
            drawn =
                All-imp _ _ (λ d k. (omega (arith, k.0), omega (arith, k.1))) s.deliveries
                  h.keyed.drawn;
          };
          todo = tt;
          apart = tt;
          evolves = h.evolves;
        })

  add_rules-Round :
      (now : ℕ) (os : List ℕ) (s : Db)
      → All (λ (o : ℕ). o ≤ longest) os
      → Round note start [] s
      → Returns (λ _ s'. Round note start [] s') (for_each os (add_rule note now) s)
  unfolding for_each
  add_rules-Round now [] s short h = h
  add_rules-Round now (o ∷ os) s short h =
      Returns-bind (λ _ s'. Round note start [] s') (λ _ s'. Round note start [] s')
        (add_rule note now o) _ s (add_rule-Round now o s short.0 h)
        (λ _ s' k. add_rules-Round now os s' short.1 k)

  abbrev ordered_rules :
      (P : ReminderRule → Type 0) → All P start.rules → All P (rules_of note start)
  ordered_rules P h = All-order_by P _ _ (All-select P _ start.rules h)

  start-Round :
      (offsets : List ℕ) → IsReady offsets start → Round note start (rules_of note start) start
  start-Round offsets h = record {
    keyed = h.keyed;
    todo = All-of _ (rules_of note start) (λ r m. record {
      short = All-at _ r _ (ordered_rules _ h.short) m;
      drawn = All-at _ r _ (ordered_rules _ h.drawn) m;
      not_ahead = All-at _ r _ (ordered_rules _ h.not_ahead) m;
      own = any-Member r.id r _ refl m;
    });
    apart =
        Apart-order_by OtherRule (λ x y k e. k (sym e)) _ _
          (Apart-select OtherRule _ start.rules h.apart);
    evolves =
        Evolves-refl (λ d. record { later = Later-refl d; others = λ _. refl }) start.deliveries;
  }

  -- For a note that starts a day or more after the first instant, tables with distinct keys whose rules
  -- are not overtaken by their deliveries, and offsets of a day at most: reconciling returns. It keeps the identifiers and the pairs of rule and cycle of deliveries
  -- distinct, moves each delivery of the note only forward in its life, and leaves those of other
  -- notes as they were.
  pub reconcile_history :
      (offsets : List ℕ) (schedule_changed : Bool) (now : ℕ)
      → IsReady offsets start
      → Returns
          (λ _ s.
            IsKeyed s.next_uuid s.deliveries
            × Evolves (Moved note start) start.deliveries s.deliveries)
          (reconcile_reminders note offsets schedule_changed now start)
  unfolding reconcile_reminders
  reconcile_history offsets schedule_changed now h =
      Returns-imp (λ _ s. Round note start [] s) _ _ (λ _ s k. (k.keyed, k.evolves))
        (Returns-bind (λ _ s. Round note start [] s) (λ _ s. Round note start [] s)
          (for_each (rules_of note start) (reconcile_rule note offsets schedule_changed now)) _
          start
          (Returns-for_each (Round note start) _
            (λ r rs s k. reconcile_rule-Round note start late offsets schedule_changed now r rs s k)
            (rules_of note start) start (start-Round offsets h))
          (λ _ s k.
            add_rules-Round now (missing_offsets offsets (rules_of note start)) s
              (All-order_by _ _ _
                (All-select _ _ (distinct offsets) (All-distinct _ offsets h.wanted)))
              k))
