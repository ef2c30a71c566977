-- ===== src/System/Jobs/Refused.antt =====
-- A purge that meets an attempt in progress is refused as a whole: it erases the snapshots of the attempt,
-- which `ck_delivery_state_shape` demands.
use mad_devs_note_taker.Base.{
  ℕ, ◌*◌, ◌-◌, ◌≡◌, refl, Bool, true, false, ◌&&◌, all, any, contains, List, [], ◌∷◌, All, Some,
  Bool-cases, inl, inr, ◌⊎◌, arith, ◌==◌,
}
use mad_devs_note_taker.Base.Tables.{update_where}
use mad_devs_note_taker.Models.{Db, Note, ReminderDelivery, ReminderRule, is_attempt_started}
use mad_devs_note_taker.Session.{minus, day, modify}
use mad_devs_note_taker.Session.Rules.{IfReturns, IfReturns-bind, IfReturns-read, IfReturns-imp}
use mad_devs_note_taker.Session.Frames.{
  Frames, Frames-modify, Frames-then, Frames-for_each, Frames-pure, frames_rules,
}
use mad_devs_note_taker.Storage.{is_storable}
use mad_devs_note_taker.Jobs.Maintenance.{
  is_exhausted, is_delivery_of, redact, redact_notes, purge_notes, redact_series, deleted_event,
  purge_trash, purge_note,
}
use mad_devs_note_taker.System.Jobs.Purge.{erase, erase-refused, purged_ids, minus-value}

abbrev rows_of : Db → List ReminderDelivery
rows_of s = s.deliveries

Frames-redact_series : (now id : ℕ) → Frames rows_of (modify (redact_series now id))
unfolding redact_series
Frames-redact_series now id =
    Frames-modify (redact_series now id)
      (λ s. elim (Bool-cases (is_exhausted id s)) [ inl t ↦ rw t refl | inr f ↦ rw f refl ])

Frames-deleted_event : (now : ℕ) (n : Note) → Frames rows_of (deleted_event now n)
unfolding deleted_event
Frames-deleted_event now n = search (frames_rules)

-- A delivery of the notes whose attempt is in progress.
abbrev pub Started : List ℕ → Db → Type 0
Started ids s =
    Some
      (λ (d : ReminderDelivery).
        (is_delivery_of ids s d ≡ true) × (is_attempt_started d.state ≡ true))
      s.deliveries

pub started_or_none :
    (p : ReminderDelivery → Bool) (ds : List ReminderDelivery)
    → All (λ (d : ReminderDelivery). p d ≡ true → is_attempt_started d.state ≡ false) ds
      ⊎ Some (λ (d : ReminderDelivery). (p d ≡ true) × (is_attempt_started d.state ≡ true)) ds
started_or_none p [] = inl tt
started_or_none p (d ∷ ds) = elim (started_or_none p ds) [
  | inr s ↦ inr (inr s)
  | inl a ↦ elim (Bool-cases (p d)) [
    | inr f ↦ inl ((λ t. absurd (cc (t, f))), a)
    | inl t ↦ elim (Bool-cases (is_attempt_started d.state)) [
      | inl q ↦ inr (inl (t, q))
      | inr q ↦ inl ((λ _. q), a)
    ]
  ]
]

refused_rows :
    (p : ReminderDelivery → Bool) (ds : List ReminderDelivery)
    → Some (λ (d : ReminderDelivery). (p d ≡ true) × (is_attempt_started d.state ≡ true)) ds
    → all is_storable (update_where p erase ds) ≡ false
refused_rows p [] h = absurd h
refused_rows p (d ∷ ds) (inl (t, q)) =
    let r : is_storable (erase d) ≡ false = erase-refused d q in rw t (rw r refl)
refused_rows p (d ∷ ds) (inr h) =
    let rest = refused_rows p ds h in
    elim (Bool-cases (p d)) [ inl t ↦ rw t (last (erase d) rest) | inr f ↦ rw f (last d rest) ]
  where
    last :
        (x : ReminderDelivery)
        → all is_storable (update_where p erase ds) ≡ false
        → (is_storable x && all is_storable (update_where p erase ds)) ≡ false
    last x e = elim (Bool-cases (is_storable x)) [ inl t ↦ rw t e | inr f ↦ rw f refl ]

no_ids :
    (d : ReminderDelivery) (rs : List ReminderRule)
    → any (λ (r : ReminderRule). (r.id == d.reminder_rule_id) && contains r.note_id []) rs ≡ false
no_ids d [] = refl
no_ids d (r ∷ rs) = ground (arith, no_ids d rs)

redact_notes-refused :
    (ids : List ℕ) (s : Db)
    → Started ids s
    → IfReturns (λ _ t. all is_storable t.deliveries ≡ false) (redact_notes ids s)
unfolding redact_notes redact is_delivery_of
redact_notes-refused [] s h = absurd (nothing s.deliveries h)
  where
    nothing :
        (ds : List ReminderDelivery)
        → Some
            (λ (d : ReminderDelivery).
              (is_delivery_of [] s d ≡ true) × (is_attempt_started d.state ≡ true))
            ds
        → ⊥
    nothing [] k = k
    nothing (d ∷ ds) (inl (t, q)) = absurd (cc (t, no_ids d s.rules))
    nothing (d ∷ ds) (inr k) = nothing ds k
redact_notes-refused (i ∷ is) s h = refused_rows (is_delivery_of (i ∷ is) s) s.deliveries h

-- Where a purge that takes a note with an attempt in progress returns, its rows violate the check on the
-- shape of a delivery's state.
pub purge_trash-refused :
    (now retention_days limit : ℕ) (s : Db)
    → Started (purged_ids (now - retention_days * day) limit s) s
    → IfReturns
        (λ _ t. all is_storable t.deliveries ≡ false)
        (purge_trash now retention_days limit s)
unfolding purge_trash purge_notes is_delivery_of
purge_trash-refused now retention_days limit s h =
    IfReturns-read (λ _ t. all is_storable t.deliveries ≡ false) (minus now (retention_days * day))
      _ s
      (λ cutoff e.
        let ids = purged_ids cutoff limit s in
        let t : Db = record s {
          notes = update_where (λ (n : Note). contains n.id ids) (purge_note now) s.notes;
        } in
        IfReturns-bind (λ _ u. all is_storable u.deliveries ≡ false)
          (λ _ u. all is_storable u.deliveries ≡ false) (redact_notes ids) _ t
          (redact_notes-refused ids t (rw (minus-value now (retention_days * day) cutoff e) h))
          (λ _ u r.
            IfReturns-imp (λ _ v. v.deliveries ≡ u.deliveries)
              (λ _ v. all is_storable v.deliveries ≡ false) _ (λ _ v q. rw q r)
              ((Frames-then _ _ (Frames-for_each _ _ (Frames-redact_series now)) (
                  Frames-then _ _ (Frames-for_each _ _ (Frames-deleted_event now))
                    (Frames-pure _))).at
                u)))
