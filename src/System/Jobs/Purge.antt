-- ===== src/System/Jobs/Purge.antt =====
-- Purging the trash keeps the constraints as long as none of the purged notes has an attempt in progress.
use mad_devs_note_taker.Base.{
  All-both, ℕ, ◌*◌, ◌≡◌, refl, true, false, List, [], ◌∷◌, map, All, Bool-cases, inl, inr, arith,
  contains, none, ◌-◌, ltb,
}
use mad_devs_note_taker.Base.Tables.{update_where, All-update_where, All-update_if}
use mad_devs_note_taker.Base.Apart.{Apart-update_where, All-of, Evolves-update_where}
use mad_devs_note_taker.Base.Keyed.{Other}
use mad_devs_note_taker.Base.Results.{ok}
use mad_devs_note_taker.Models.{Db, Note, ReminderDelivery, is_attempt_started}
use mad_devs_note_taker.Deliveries.{Later, Later-refl, reaches_refl}
use mad_devs_note_taker.Session.{minus, day, modify}
use mad_devs_note_taker.Session.Rules.{IfReturns, IfReturns-read}
use mad_devs_note_taker.Storage.{IsStorable, is_storable, is_storable_event}
use mad_devs_note_taker.Jobs.Maintenance.{
  is_exhausted, is_delivery_of, redact, redact_notes, purge_notes, redact_series, deleted_event,
  purge_ids, expired_notes, purge_trash, purge_note,
}
use mad_devs_note_taker.System.Keeps.{
  IsStored, Onward, Onward-refl, Keeps, Keeps-then, Keeps-for_each, Keeps-pure, modify-Onward,
  delivery_id,
}
use mad_devs_note_taker.System.Effects.{Keeps-emit, Onward-bind, Onward-from}

abbrev pub erase : ReminderDelivery → ReminderDelivery
erase d = record d { content_snapshot = none; recipient_snapshot = none }

erase-Later : (d : ReminderDelivery) → Later d (erase d)
erase-Later d = record {
  same_id = refl;
  same_rule = refl;
  same_cycle = refl;
  same_due = refl;
  reached = reaches_refl d.state;
}

erase-IsStorable :
    (d : ReminderDelivery)
    → is_attempt_started d.state ≡ false
    → IsStorable d
    → IsStorable (erase d)
unfolding is_storable
erase-IsStorable d a h = let k = h.accepted in record { accepted = ground arith }

-- The reverse: an attempt in progress has its snapshots.
pub erase-refused :
    (d : ReminderDelivery) → is_attempt_started d.state ≡ true → is_storable (erase d) ≡ false
unfolding is_storable
erase-refused d a = ground arith

-- None of the notes' deliveries is an attempt in progress.
abbrev pub NoneStarted : List ℕ → Db → Type 0
NoneStarted ids s =
    All
      (λ (d : ReminderDelivery). is_delivery_of ids s d ≡ true → is_attempt_started d.state ≡ false)
      s.deliveries

redact_notes-Onward :
    (ids : List ℕ) (s : Db)
    → IsStored s
    → NoneStarted ids s
    → IfReturns (λ _ t. Onward s t) (redact_notes ids s)
unfolding redact_notes redact
redact_notes-Onward [] s h k = Onward-refl s h
redact_notes-Onward (i ∷ is) s h k = record {
  stored = record {
    deliveries = record {
      apart =
          Apart-update_where (Other delivery_id) (is_delivery_of (i ∷ is) s) erase (λ x y o. o)
            (λ x y o. o) s.deliveries h.deliveries.apart;
      drawn =
          All-update_where _ (is_delivery_of (i ∷ is) s) erase (λ x l. l) s.deliveries
            h.deliveries.drawn;
      rows =
          All-update_if IsStorable (is_delivery_of (i ∷ is) s) erase s.deliveries
            (All-both _ IsStorable _ (λ d none_started l t. erase-IsStorable d (none_started t) l)
              s.deliveries k h.deliveries.rows)
            h.deliveries.rows;
    };
    events = h.events;
  };
  evolves =
      Evolves-update_where Later-refl (is_delivery_of (i ∷ is) s) erase s.deliveries
        (All-of _ s.deliveries (λ d m t. erase-Later d));
}

Keeps-deleted_event : (now : ℕ) (n : Note) → Keeps (deleted_event now n)
unfolding deleted_event is_storable_event
Keeps-deleted_event now n = Keeps-emit _ (λ id s. refl) (λ id s. record { accepted = refl })

Keeps-redact_series : (now id : ℕ) → Keeps (modify (redact_series now id))
unfolding redact_series
Keeps-redact_series now id = record {
  at = λ s h. elim (Bool-cases (is_exhausted id s)) [
    | inl t ↦ rw t (modify-Onward s _ h refl refl refl)
    | inr f ↦ rw f (Onward-refl s h)
  ];
}

-- The notes that a purge with this cutoff takes.
abbrev pub purged_ids : ℕ → ℕ → Db → List ℕ
purged_ids cutoff limit s =
    map (λ (n : Note). n.id) (expired_notes cutoff (purge_ids cutoff limit s).0 s)

pub minus-value : (t d c : ℕ) → minus t d ≡ ok c → c ≡ t - d
unfolding minus
minus-value t d c e = elim (Bool-cases (ltb t d)) [
  | inl b ↦ absurd (cc (rw b at e))
  | inr b ↦ cc (rw b at e)
]

-- A purge keeps the constraints when none of the notes that it takes has an attempt in progress.
pub purge_trash-Onward :
    (now retention_days limit : ℕ) (s : Db)
    → IsStored s
    → NoneStarted (purged_ids (now - retention_days * day) limit s) s
    → IfReturns (λ _ t. Onward s t) (purge_trash now retention_days limit s)
unfolding purge_trash purge_notes is_delivery_of
purge_trash-Onward now retention_days limit s h k =
    IfReturns-read (λ _ t. Onward s t) (minus now (retention_days * day)) _ s
      (λ cutoff e.
        let ids = purged_ids cutoff limit s in
        let t : Db = record s {
          notes = update_where (λ (n : Note). contains n.id ids) (purge_note now) s.notes;
        } in
        let o : Onward s t = modify-Onward s t h refl refl refl in
        Onward-from _ o (
          Onward-bind (redact_notes ids) _ t
            (redact_notes-Onward ids t o.stored
              (rw (minus-value now (retention_days * day) cutoff e) k))
            (λ _.
              Keeps-then _ _ (Keeps-for_each _ _ (Keeps-redact_series now))
                (Keeps-then _ _ (Keeps-for_each _ _ (Keeps-deleted_event now)) (Keeps-pure _)))))
