-- ===== src/Storage/Repair/Settled.antt =====
-- What the repair leaves behind.
use mad_devs_note_taker.Base.{
  ℕ, Bool, true, false, not, ◌≡◌, refl, is_nil, List, [], ◌∷◌, select, All, All-imp, Bool-cases,
  inl, inr, arith,
}
use mad_devs_note_taker.Base.Tables.{All-update_by, All-update_where, All-update_if}
use mad_devs_note_taker.Models.{Db, Note, ReminderDelivery, OccurrenceException, is_open}
use mad_devs_note_taker.Storage.{IsStorable, is_storable}
use mad_devs_note_taker.Storage.Repair.{
  is_ghost, delete_ghosts, is_stray, cancel_stray, cancel_strays, is_superseded, drop_superseded,
  is_purged, cancel_purged, repair,
}

-- No note is superseded and accessible; no delivery of a note that is gone is open; no exception of a
-- superseded occurrence is left; and those of purged ones are cancelled and name no field.
pub record IsSettled (s : Db) : Type 0 where
  pub no_ghosts : All (λ (n : Note). is_ghost n ≡ false) s.notes
  pub no_strays : All (λ (d : ReminderDelivery). is_stray s d ≡ false) s.deliveries
  pub no_superseded : All (λ (x : OccurrenceException). is_superseded s x ≡ false) s.exceptions
  pub purged :
      All
        (λ (x : OccurrenceException).
          is_purged s x ≡ true → (x.cancelled ≡ true) × (is_nil x.overridden_fields ≡ true))
        s.exceptions

selected :
    {A : Type 0} (p : A → Bool) (xs : List A) → All (λ x. p x ≡ false) (select (λ x. not (p x)) xs)
selected p [] = tt
selected p (x ∷ xs) = elim (Bool-cases (p x)) [
  | inl t ↦ rw t (selected p xs)
  | inr f ↦ rw f (f, selected p xs)
]

-- Whatever the tables held, they are settled after the repair.
pub repair-IsSettled : (now : ℕ) (s : Db) → IsSettled (repair now s)
unfolding repair delete_ghosts cancel_strays drop_superseded cancel_purged
repair-IsSettled now s = record {
  no_ghosts = All-update_by _ is_ghost _ (λ n t. ground (arith, t)) (λ n f. f) s.notes;
  no_strays =
      All-update_by _ (is_stray (delete_ghosts s)) (cancel_stray now) (λ d t. ground arith)
        (λ d f. f) s.deliveries;
  no_superseded =
      All-update_where _ (is_purged (delete_ghosts s)) _ (λ x f. f) _
        (selected (is_superseded (delete_ghosts s)) s.exceptions);
  purged =
      All-update_by _ (is_purged (delete_ghosts s)) _ (λ x t _. (refl, refl))
        (λ x f t. absurd (cc (f, t))) _;
}

cancel_stray-IsStorable :
    (now : ℕ) (d : ReminderDelivery)
    → is_open d.state ≡ true
    → IsStorable d
    → IsStorable (cancel_stray now d)
unfolding is_storable
cancel_stray-IsStorable now d o h = let k = h.accepted in record { accepted = ground arith }

-- And the repair keeps every delivery acceptable.
pub repair-rows :
    (now : ℕ) (s : Db) → All IsStorable s.deliveries → All IsStorable (repair now s).deliveries
unfolding repair delete_ghosts cancel_strays drop_superseded cancel_purged
repair-rows now s h =
    All-update_if IsStorable (is_stray (delete_ghosts s)) (cancel_stray now) s.deliveries
      (All-imp IsStorable _ (λ d k t. cancel_stray-IsStorable now d (ground (arith, t)) k)
        s.deliveries h)
      h
