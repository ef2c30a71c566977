-- ===== src/Api/Series/Guards.antt =====
-- What holds of every split that goes through.
use mad_devs_note_taker.Base.{
  ℕ, ◌≡◌, refl, Bool, true, false, ◌&&◌, ◌||◌, not, ◌==◌, some, none, is_none, is_some, List, [],
  ◌∷◌, arith, All, any, select, inl, inr, Bool-cases, length, find_first, leb, opt_ge, sym, ◌≤◌,
  ◌≢◌, All-both, ◌∙◌, subst, opt_eq,
}
use mad_devs_note_taker.Base.Apart.{Apart, Member, All-at, All-of, select-Member}
use mad_devs_note_taker.Base.Results.{Result, ok, err}
use mad_devs_note_taker.Models.{Db, Text, RecurrenceSeries, Note}
use mad_devs_note_taker.Recurrence.{Zones}
use mad_devs_note_taker.Schemas.{SeriesSplit, SeriesResponse}
use mad_devs_note_taker.Session.{utcnow, one_or_none, Error}
use mad_devs_note_taker.Session.Rules.{
  IfReturns, IfReturns-bind, IfReturns-read, IfReturns-found, IfReturns-imp,
}
use mad_devs_note_taker.Api.Series.{locked_series}
use mad_devs_note_taker.Api.Series.Checks.{
  id_of, is_successor, successor_of, check_leaf, select_occurrence, affected_notes, started,
  check_affected,
}
use mad_devs_note_taker.Api.Series.Split.{split_series, split_from}
use mad_devs_note_taker.Api.Series.Untouched.{note_id, Stays-split_from}
use mad_devs_note_taker.Base.Keyed.{Other, same_key}
use mad_devs_note_taker.Base.Tables.{order_by, length-order_by, All-order_by}

one_or_none-Member : {A : Type 0} (xs : List A) (x : A) → one_or_none xs ≡ ok (some x) → Member x xs
unfolding one_or_none
one_or_none-Member [] x h = absurd cc
one_or_none-Member (y ∷ []) x h = inl cc
one_or_none-Member (y ∷ z ∷ xs) x h = absurd cc

-- None passes a test that no element does.
any-All : {A : Type 0} (p : A → Bool) (xs : List A) → any p xs ≡ false → All (λ x. p x ≡ false) xs
any-All p [] h = tt
any-All p (x ∷ xs) h = (ground (arith, h), any-All p xs (ground (arith, h)))

module _ (id : ℕ) (s : Db) where
  -- A series that is there under the identifier.
  pub record IsLocked (r : RecurrenceSeries) : Type 0 where
    pub there : Member r s.recurrence_series
    pub named : (r.id == id) ≡ true
    pub present : is_none r.purged_at ≡ true

  abbrev is_open_row : RecurrenceSeries → Bool
  is_open_row r = (r.id == id) && is_none r.purged_at

  locked_series-IsLocked : IfReturns (λ r s'. (s' ≡ s) × IsLocked r) (locked_series id none s)
  unfolding locked_series
  locked_series-IsLocked =
      IfReturns-read (λ r s'. (s' ≡ s) × IsLocked r)
        (one_or_none (select is_open_row s.recurrence_series)) _ s
        (λ o q.
          IfReturns-found (λ r s'. (s' ≡ s) × IsLocked r) o _ _ s
            (λ r e.
              let (there, ok_row) =
                select-Member is_open_row r s.recurrence_series
                  (one_or_none-Member _ r (rw e at q)) in
              (
                refl,
                record {
                  there = there;
                  named = ground (arith, ok_row);
                  present = ground (arith, ok_row);
                },
              )))

-- No row follows the series.
abbrev NoSuccessor : RecurrenceSeries → Db → Type 0
NoSuccessor old s =
    All (λ (r : RecurrenceSeries). opt_eq r.predecessor_id old.id ≡ false) s.recurrence_series

select-nil :
    {A : Type 0} (p : A → Bool) (xs : List A) → length (select p xs) ≡ 0 → All (λ x. p x ≡ false) xs
select-nil p [] h = tt
select-nil p (x ∷ xs) h = elim (Bool-cases (p x)) [
  | inl t ↦ absurd (let e = rw t at h in omega (arith, e))
  | inr f ↦ (f, select-nil p xs (rw f at h))
]

successor_of-none :
    (old : RecurrenceSeries) (s : Db)
    → is_some (id_of (successor_of old.id s)) ≡ false
    → NoSuccessor old s
successor_of-none old s h =
    select-nil (is_successor old.id) s.recurrence_series
      (sym (length-order_by by_id rows) ∙ first_none (order_by by_id rows) h)
  where
    by_id : RecurrenceSeries → RecurrenceSeries → Bool
    by_id a b = leb a.id b.id

    rows : List RecurrenceSeries
    rows = select (is_successor old.id) s.recurrence_series

    first_none :
        (rs : List RecurrenceSeries)
        → is_some (id_of (find_first (λ (r : RecurrenceSeries). true) rs)) ≡ false
        → length rs ≡ 0
    first_none [] k = refl
    first_none (r ∷ rs) k = absurd cc

module _ (old : RecurrenceSeries) (s : Db) where
  check_leaf-open :
      (version : ℕ)
      → IfReturns
          (λ _ s'.
            (s' ≡ s)
            × (is_some old.split_boundary ≡ false)
            × ((old.version == version) ≡ true)
            × NoSuccessor old s)
          (check_leaf old version s)
  unfolding check_leaf
  check_leaf-open version =
      elim (Bool-cases (is_some old.split_boundary || is_some (id_of (successor_of old.id s)))) [
        | inl e ↦ rw e tt
        | inr leaf ↦ elim (Bool-cases (not (old.version == version))) [
          | inl e ↦ rw (leaf, e) tt
          | inr seen ↦
              rw (leaf, seen)
                (
                  refl,
                  ground (arith, leaf),
                  ground (arith, seen),
                  successor_of-none old s (ground (arith, leaf)),
                )
        ]
      ]

  -- The occurrence of the series at the key, in the version that the client saw.
  pub record IsSelected (payload : SeriesSplit) (n : Note) : Type 0 where
    pub there : Member n s.notes
    pub of_series : opt_eq n.series_id old.id ≡ true
    pub at_key : opt_eq n.recurrence_key payload.recurrence_key ≡ true
    pub seen : (n.version == payload.expected_occurrence_version) ≡ true

  abbrev is_selected : SeriesSplit → Note → Bool
  is_selected payload n =
      opt_eq n.series_id old.id
      && opt_eq n.recurrence_key payload.recurrence_key
      && is_none n.superseded_at
      && is_none n.purged_at

  select_occurrence-IsSelected :
      (payload : SeriesSplit)
      → IfReturns (λ n s'. (s' ≡ s) × IsSelected payload n) (select_occurrence old payload s)
  unfolding select_occurrence
  select_occurrence-IsSelected payload =
      IfReturns-read (λ n s'. (s' ≡ s) × IsSelected payload n)
        (one_or_none (select (is_selected payload) s.notes)) _ s
        (λ o q.
          IfReturns-found (λ n s'. (s' ≡ s) × IsSelected payload n) o _ _ s
            (λ n e.
              let (there, ok_row) =
                select-Member (is_selected payload) n s.notes
                  (one_or_none-Member _ n (rw e at q)) in
              elim (Bool-cases (not (n.version == payload.expected_occurrence_version))) [
                | inl e ↦ rw e tt
                | inr seen ↦ rw seen (
                  refl,
                  record {
                    there = there;
                    of_series = ground (arith, ok_row);
                    at_key = ground (arith, ok_row);
                    seen = ground (arith, seen);
                  },
                )
              ]))

check_affected-future :
    (now : ℕ) (ns : List Note) (s : Db)
    → IfReturns
        (λ _ s'. (s' ≡ s) × All (λ (n : Note). started now n ≡ false) ns)
        (check_affected now ns s)
unfolding check_affected
check_affected-future now ns s =
    elim (Bool-cases (
      any (λ (n : Note). is_some n.current_recurring_trash_action_id || is_some n.series_trashed_at)
        ns)) [
          | inl e ↦ rw e tt
          | inr free ↦ elim (Bool-cases (any (started now) ns)) [
            | inl e ↦ rw (free, e) tt
            | inr future ↦ rw (free, future) (refl, any-All (started now) ns future)
          ]
        ]

-- A property of all of a family, of what is returned.
IfReturns-all :
    {A C : Type 0} (P : C → A → Db → Type 0) (r : Result Error (A × Db))
    → ((c : C) → IfReturns (P c) r)
    → IfReturns (λ a t. (c : C) → P c a t) r
IfReturns-all P (ok (a, t)) h = h
IfReturns-all P (err e) h = tt

-- A split that went through, from the tables before it.
pub record IsAllowed (series_id : ℕ) (payload : SeriesSplit) (s : Db) : Type 0 where
  pub old : RecurrenceSeries
  pub selected : Note
  pub locked : IsLocked series_id s old
  pub leaf : is_some old.split_boundary ≡ false
  pub no_successor : NoSuccessor old s
  pub version : (old.version == payload.series_version) ≡ true
  pub found : IsSelected old s payload selected
  pub future :
      All
        (λ (n : Note). started (s.clock s.reads) n ≡ false)
        (affected_notes old payload.recurrence_key s)

abbrev Future : RecurrenceSeries → SeriesSplit → Db → Type 0
Future old payload s =
    All (λ (n : Note). started (s.clock s.reads) n ≡ false)
      (affected_notes old payload.recurrence_key s)

-- A note that started before a moment is still there as it was.
abbrev pub KeepsStarted : ℕ → Db → Db → Type 0
KeepsStarted now s t = (n : Note) → Member n s.notes → n.starts_at ≤ now → Member n t.notes

-- The rows of the split are none that had started.
others-of-started :
    (old : RecurrenceSeries) (payload : SeriesSplit) (s : Db)
    → Apart (Other note_id) s.notes
    → Future old payload s
    → (n : Note) → Member n s.notes
    → n.starts_at ≤ s.clock s.reads
    → All (λ (x : Note). x.id ≢ n.id) (affected_notes old payload.recurrence_key s)
others-of-started old payload s apart future n m past =
    All-both _ _ _
      (λ x there ahead same.
        let e : x ≡ n =
          All-at _ x s.notes (same_key note_id n s.notes apart m) there (ground (arith, same)) in
        let ahead' : started (s.clock s.reads) n ≡ false =
          subst (λ y. started (s.clock s.reads) y ≡ false) e ahead in
        absurd (ground (arith, ahead', past)))
      (affected_notes old payload.recurrence_key s)
      (All-order_by (λ x. Member x s.notes) _ (select from_split s.notes)
        (All-of _ (select from_split s.notes) (λ x h. (select-Member from_split x s.notes h).0)))
      future
  where
    from_split : Note → Bool
    from_split x =
        opt_eq x.series_id old.id
        && opt_ge x.recurrence_key payload.recurrence_key
        && is_none x.superseded_at

split_from-KeepsStarted :
    (zones : Zones) (lower : Text → Text) (setting : ℕ) (old : RecurrenceSeries)
    (payload : SeriesSplit) (s : Db)
    → Apart (Other note_id) s.notes
    → Future old payload s
    → (u : Db) → u.notes ≡ s.notes
    → IfReturns
        (λ _ t. KeepsStarted (s.clock s.reads) s t)
        (split_from zones lower setting old payload
          (s.clock s.reads)
          (affected_notes old payload.recurrence_key s)
          u)
split_from-KeepsStarted zones lower setting old payload s apart future u e = IfReturns-all _ _ (λ n.
    IfReturns-all _ _ (λ m.
      IfReturns-all (λ _ _ t. Member n t.notes) _
        (λ past.
          (Stays-split_from n zones lower setting old payload (s.clock s.reads)
              (affected_notes old payload.recurrence_key s)
              (others-of-started old payload s apart future n m past)).at
            u (rw e m))))

-- Where the notes have distinct identifiers: a split that returns was of a series that is there, in the version
-- that the client saw, neither split before nor followed by another series; of an occurrence of it in the
-- version that the client saw; none of the occurrences from that one on had started; and every note that had
-- started is still there, unchanged.
pub split_series-IsAllowed :
    (zones : Zones) (lower : Text → Text) (setting series_id : ℕ) (payload : SeriesSplit) (s : Db)
    → Apart (Other note_id) s.notes
    → IfReturns
        (λ _ t. IsAllowed series_id payload s × KeepsStarted (s.clock s.reads) s t)
        (split_series zones lower setting series_id payload s)
unfolding split_series utcnow
split_series-IsAllowed zones lower setting series_id payload s apart =
    let Q : SeriesResponse → Db → Type 0 =
      λ _ t. IsAllowed series_id payload s × KeepsStarted (s.clock s.reads) s t in
    IfReturns-bind Q (λ r s'. (s' ≡ s) × IsLocked series_id s r) (locked_series series_id none) _ s
      (locked_series-IsLocked series_id s)
      (λ old s1 l. rw l.0 (
        IfReturns-bind Q _ (check_leaf old payload.series_version) _ s
          (check_leaf-open old s payload.series_version)
          (λ _ s2 k. rw k.0 (
            IfReturns-bind Q _ (select_occurrence old payload) _ s
              (select_occurrence-IsSelected old s payload)
              (λ selected s3 m. rw m.0 (
                IfReturns-bind Q _
                  (check_affected (s.clock s.reads) (affected_notes old payload.recurrence_key s)) _
                  _
                  (check_affected-future (s.clock s.reads)
                    (affected_notes old payload.recurrence_key s) _)
                  (λ _ s4 n. rw n.0 (
                    IfReturns-imp (λ _ t. KeepsStarted (s.clock s.reads) s t) Q _
                      (λ _ t kept. (
                        record {
                          old = old;
                          selected = selected;
                          locked = l.1;
                          leaf = k.1;
                          no_successor = k.3;
                          version = k.2;
                          found = m.1;
                          future = n.1;
                        },
                        kept,
                      ))
                      (split_from-KeepsStarted zones lower setting old payload s apart n.1 _
                        refl)))))))))
