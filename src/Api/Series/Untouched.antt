-- ===== src/Api/Series/Untouched.antt =====
-- `split_series` writes no note but those from the split on.
use mad_devs_note_taker.Base.{
  ℕ, ◌≡◌, ◌≢◌, subst, Bool, true, false, ◌==◌, some, none, List, [], ◌∷◌, ◌++◌, All,
  Some-append_left, find_first, Bool-cases, Option-cases, inl, inr, arith,
}
use mathlib.Core.List.{reverse, reverse_aux}
use mad_devs_note_taker.Base.Apart.{Member, Member-update_where_of_false}
use mad_devs_note_taker.Models.{Db, Text, Note, RecurrenceSeries}
use mad_devs_note_taker.Recurrence.{Zones, Occurrence}
use mad_devs_note_taker.Schemas.{SeriesFields, SeriesSplit}
use mad_devs_note_taker.Session.{M, ◌>>=◌, ◌>>◌, when, for_each, modify}
use mad_devs_note_taker.Session.Rules.{IfReturns, IfReturns-bind, IfReturns-imp}
use mad_devs_note_taker.Session.Frames.{Frames, frames_rules}
use mad_devs_note_taker.Notes.{write_note, write_series}
use mad_devs_note_taker.Api.NoteHandlers.Editing.{
  notes_of, Frames-validate_tags, Frames-reconcile, Frames-add_event,
}
use mad_devs_note_taker.Api.Series.{add_series, series_response_data, check_first}
use mad_devs_note_taker.Api.Series.Checks.{check_generated}
use mad_devs_note_taker.Api.Series.Split.{
  split_from, take_over, split_occurrences, split_occurrence, supersede, drop_exceptions,
  affected_at,
}

abbrev pub note_id : Note → ℕ
note_id n = n.id

module _ (n : Note) where
  -- A transaction that leaves the note where it is.
  pub record Stays {A : Type 0} (m : M A) : Type 0 where
    pub at : (s : Db) → Member n s.notes → IfReturns (λ _ t. Member n t.notes) (m s)

module _ {n : Note} where
  Stays-bind :
      {A B : Type 0} (m : M A) (f : A → M B)
      → Stays n m
      → ((a : A) → Stays n (f a))
      → Stays n (m >>= f)
  Stays-bind m f k l = record {
    at = λ s h.
        IfReturns-bind (λ _ t. Member n t.notes) (λ _ t. Member n t.notes) m f s (k.at s h)
          (λ a t g. (l a).at t g);
  }

  Stays-then : {A B : Type 0} (m : M A) (k : M B) → Stays n m → Stays n k → Stays n (m >> k)
  Stays-then m k f g = Stays-bind m (λ _. k) f (λ _. g)

  Stays-Frames : {A : Type 0} (m : M A) → Frames notes_of m → Stays n m
  Stays-Frames m k = record {
    at = λ s h.
        IfReturns-imp (λ _ t. t.notes ≡ s.notes) (λ _ t. Member n t.notes) (m s) (λ _ t e. rw e h)
          (k.at s);
  }

  Stays-when : (b : Bool) (m : M (Unit {0})) → Stays n m → Stays n (when b m)
  Stays-when true m k = k
  Stays-when false m k = record { at = λ s h. h }

  Stays-for_each :
      {A : Type 0} (P : A → Type 0) (xs : List A) (body : A → M (Unit {0}))
      → ((x : A) → P x → Stays n (body x))
      → All P xs
      → Stays n (for_each xs body)
  unfolding for_each
  Stays-for_each P [] body k h = record { at = λ s m. m }
  Stays-for_each P (x ∷ xs) body k h =
      Stays-then (body x) (for_each xs body) (k x h.0) (Stays-for_each P xs body k h.1)

  Stays-write_note : (id : ℕ) (f : Note → Note) → id ≢ n.id → Stays n (write_note id f)
  unfolding write_note
  Stays-write_note id f other = record {
    at = λ s h.
        Member-update_where_of_false (λ (x : Note). x.id == id) f n s.notes h
          (ground (arith, other));
  }

  Stays-add_note : (x : Note) → Stays n (modify (λ s. record s { notes = s.notes ++ x ∷ [] }))
  Stays-add_note x = record { at = λ s h. Some-append_left _ s.notes (x ∷ []) h }

ruleset stays_rules = (
  Stays-bind, Stays-then, Stays-when, Stays-write_note, Stays-add_note, Stays-Frames, frames_rules,
  Frames-validate_tags, Frames-reconcile, Frames-add_event,
)

-- An element that a search over the reversed list finds.
module _ {A : Type 0} (P : A → Type 0) where
  All-reverse_aux : (xs ys : List A) → All P xs → All P ys → All P (reverse_aux xs ys)
  All-reverse_aux [] ys h k = k
  All-reverse_aux (x ∷ xs) ys h k = All-reverse_aux xs (x ∷ ys) h.1 (h.0, k)

  All-find_first : (p : A → Bool) (xs : List A) {x : A} → All P xs → find_first p xs ≡ some x → P x
  All-find_first p [] {x} h e = absurd cc
  All-find_first p (y ∷ ys) {x} h e = elim (Bool-cases (p y)) [
    | inl t ↦ let same : y ≡ x = ground (arith, t, e) in subst P same h.0
    | inr f ↦ All-find_first p ys {x = x} h.1 (rw f at e)
  ]

module _ (n : Note) where
  abbrev Others : List Note → Type 0
  Others = All (λ (x : Note). x.id ≢ n.id)

  Stays-split_occurrence :
      (id : ℕ) (title : Text) (p : SeriesFields) (now : ℕ) (o : Occurrence) (x : Note)
      → x.id ≢ n.id
      → Stays n (split_occurrence id title p now o (some x))
  unfolding split_occurrence
  Stays-split_occurrence id title p now o x other = search (stays_rules) depth 20

  Stays-new_occurrence :
      (id : ℕ) (title : Text) (p : SeriesFields) (now : ℕ) (o : Occurrence)
      → Stays n (split_occurrence id title p now o none)
  unfolding split_occurrence
  Stays-new_occurrence id title p now o = search (stays_rules) depth 20

  Stays-split_occurrences :
      (id : ℕ) (title : Text) (p : SeriesFields) (now : ℕ) (affected : List Note)
      → Others affected
      → (os : List Occurrence) → Stays n (split_occurrences id title p now affected os)
  unfolding split_occurrences
  Stays-split_occurrences id title p now affected h [] = record { at = λ s m. m }
  Stays-split_occurrences id title p now affected h (o ∷ os) =
      Stays-bind (split_occurrence id title p now o (affected_at affected o.instant)) _
        (elim (Option-cases (affected_at affected o.instant)) [
          | inl absent ↦ rw absent (Stays-new_occurrence id title p now o)
          | inr (x, there) ↦ rw there (
              Stays-split_occurrence id title p now o x (
                All-find_first (λ (y : Note). y.id ≢ n.id) _ (reverse affected) {x = x}
                  (All-reverse_aux _ affected [] h tt) there))
        ])
        (λ kept.
          Stays-bind (split_occurrences id title p now affected os) _
            (Stays-split_occurrences id title p now affected h os)
            (λ others. record { at = λ s m. m }))

  Stays-supersede :
      (now : ℕ) (kept : List ℕ) (x : Note) → x.id ≢ n.id → Stays n (supersede now kept x)
  unfolding supersede
  Stays-supersede now kept x other = search (stays_rules) depth 20

  Stays-take_over :
      (zones : Zones) (old : RecurrenceSeries) (p : SeriesSplit) (now : ℕ) (affected : List Note)
      (os : List Occurrence)
      → Others affected
      → Stays n (take_over zones old p now affected os)
  unfolding take_over add_series write_series drop_exceptions
  Stays-take_over zones old p now affected os h =
      let superseded : (kept : List ℕ) → Stays n (for_each affected (supersede now kept)) = λ kept.
        Stays-for_each (λ (x : Note). x.id ≢ n.id) affected (supersede now kept)
          (Stays-supersede now kept) h in
      let split : (id : ℕ) (title : Text)
          → Stays n (split_occurrences id title p.fields now affected os) =
        λ id title. Stays-split_occurrences id title p.fields now affected h os in
      search (stays_rules) depth 40

  Frames-check_generated :
      (old : RecurrenceSeries) (p : SeriesSplit) (now : ℕ) (os : List Occurrence)
      → Frames notes_of (check_generated old p now os)
  unfolding check_generated check_first
  Frames-check_generated old p now [] = search (frames_rules) depth 20
  Frames-check_generated old p now (o ∷ os) = search (frames_rules) depth 20

  Frames-series_response_data :
      (lower : Text → Text) (r : RecurrenceSeries) → Frames notes_of (series_response_data lower r)
  unfolding series_response_data
  Frames-series_response_data lower r = search (frames_rules) depth 20

  pub Stays-split_from :
      (zones : Zones) (lower : Text → Text) (limit : ℕ) (old : RecurrenceSeries) (p : SeriesSplit)
      (now : ℕ) (affected : List Note)
      → Others affected
      → Stays n (split_from zones lower limit old p now affected)
  unfolding split_from
  Stays-split_from zones lower limit old p now affected h =
      search (stays_rules, Stays-take_over, Frames-check_generated, Frames-series_response_data)
        depth 40
