-- ===== src/System/Jobs/Outcomes.antt =====
-- Recording the outcome of an attempt keeps the constraints.
use mad_devs_note_taker.Base.{
  ℕ, ◌*◌, ◌≡◌, refl, Bool, true, false, ◌&&◌, not, ◌==◌, opt_lt, String, Option, some, none, List,
  [], ◌∷◌, select, suc, length, suc, Bool-cases, inl, inr, arith,
}
use mad_devs_note_taker.Base.Apart.{Member}
use mad_devs_note_taker.Models.{
  Db, Notification, ReminderDelivery, DeliveryState, is_attempt_started,
}
use mad_devs_note_taker.Session.{M, one, for_each, pure, minus, second, uuid4, utcnow}
use mad_devs_note_taker.Session.Rules.{
  IfReturns, IfReturns-bind, IfReturns-read, IfReturns-imp, IfReturns-both,
}
use mad_devs_note_taker.Deliveries.{reaches, Later}
use mad_devs_note_taker.Storage.Rows.{finish-IsStorable, lose-IsStorable}
use mad_devs_note_taker.Reminders.{write_delivery}
use mad_devs_note_taker.System.Keeps.{
  IsStored, Onward, Onward-refl, Onward-trans, modify-Onward, Keeps, Keeps-pure, keeps_rules,
}
use mad_devs_note_taker.System.Effects.{
  write-Onward, Keeps-bind_read, Keeps-emit, Onward-from, Onward-bind,
}
use mad_devs_note_taker.Session.Found.{one-found}
use mad_devs_note_taker.System.Jobs.{Written, write-Written, Awaits, Awaits-next, read-Awaits}
use mad_devs_note_taker.Jobs.Deliver.{
  record_outcome, record_visible_email_failure, classify_unknown, finish_attempt, report_failure,
  error_of, unknown_of, end_attempt, classify_row, lost_rows, final_state, lose_attempt,
  started_before,
}
use mad_devs_note_taker.Email.{Email, Outcome}
use mad_devs_note_taker.System.Jobs.Sends.{notification_event-IsStorableEvent}

Keeps-record_visible_email_failure :
    (id now : ℕ) (unknown : Bool) → Keeps (record_visible_email_failure id now unknown)
unfolding record_visible_email_failure
Keeps-record_visible_email_failure id now unknown =
    search (keeps_rules, Keeps-emit, notification_event-IsStorableEvent) depth 10

-- It changes no delivery.
record_visible_email_failure-deliveries :
    (id now : ℕ) (unknown : Bool) (s : Db)
    → IfReturns (λ _ t. t.deliveries ≡ s.deliveries) (record_visible_email_failure id now unknown s)
unfolding record_visible_email_failure uuid4
record_visible_email_failure-deliveries id now unknown s =
    IfReturns-read (λ _ t. t.deliveries ≡ s.deliveries)
      (one (select (λ (n : Notification). n.reminder_delivery_id == id) s.notifications)) _ s
      (λ notification _. refl)

ended-Later :
    (d e : ReminderDelivery)
    → is_attempt_started d.state ≡ true
    → reaches DeliveryState.attempt_started e.state ≡ true
    → e.id ≡ d.id
    → e.reminder_rule_id ≡ d.reminder_rule_id
    → e.cycle_number ≡ d.cycle_number
    → e.due_at ≡ d.due_at
    → Later d e
ended-Later d e a r i q c t = record {
  same_id = i;
  same_rule = q;
  same_cycle = c;
  same_due = t;
  reached = reached d.state e.state a r;
}
  where
    reached :
        (x y : DeliveryState)
        → is_attempt_started x ≡ true
        → reaches DeliveryState.attempt_started y ≡ true
        → reaches x y ≡ true
    reached x y a r = ground arith

final-reached :
    (unknown : Bool) (error_code : Option String)
    → reaches DeliveryState.attempt_started (final_state unknown error_code) ≡ true
final-reached true error_code = refl
final-reached false none = refl
final-reached false (some e) = refl

Keeps-report_failure : (o : Option String) (m : M (Unit {0})) → Keeps m → Keeps (report_failure o m)
Keeps-report_failure none m k = Keeps-pure tt
Keeps-report_failure (some e) m k = k

module _ (email : Email) (outcome : Outcome) where
  end_attempt-Onward :
      (d : ReminderDelivery) (s : Db)
      → IsStored s
      → Member d s.deliveries
      → is_attempt_started d.state ≡ true
      → IfReturns
          (λ _ t. Onward s t)
          (end_attempt d (unknown_of email outcome) (error_of email outcome) s)
  unfolding end_attempt utcnow
  end_attempt-Onward d s h m a =
      let t : Db = record s { reads = suc s.reads } in
      let k : Onward s t = modify-Onward s t h refl refl refl in
      let f =
        finish_attempt (unknown_of email outcome) (error_of email outcome) (s.clock s.reads) in
      Onward-from _ k (
        Onward-bind (write_delivery d.id f) _ t
          (write-Onward f d t k.stored (λ x. refl) m
            (ended-Later d (f d) a
              (final-reached (unknown_of email outcome) (error_of email outcome)) refl refl refl
              refl)
            (λ l. finish-IsStorable d l email outcome (s.clock s.reads) a))
          (λ _.
            Keeps-report_failure (error_of email outcome) _ (
              Keeps-record_visible_email_failure d.id (s.clock s.reads)
                (unknown_of email outcome))))

  pub Keeps-record_outcome :
      (id : ℕ) → Keeps (record_outcome id (unknown_of email outcome) (error_of email outcome))
  unfolding record_outcome
  Keeps-record_outcome id =
      Keeps-bind_read (λ s. one (select (λ (d : ReminderDelivery). d.id == id) s.deliveries)) _
        (λ d s e h.
          let m = (one-found (λ (x : ReminderDelivery). x.id == id) d s.deliveries e).0 in
          elim (Bool-cases (is_attempt_started d.state)) [
            | inl a ↦ rw a (end_attempt-Onward d s h m a)
            | inr a ↦ rw a (Onward-refl s h)
          ])

-- The job that gives up attempts, one row of it and the loop.
module _ (now : ℕ) where
  classify_row-Written :
      (d : ReminderDelivery) (s : Db)
      → IsStored s
      → Member d s.deliveries
      → is_attempt_started d.state ≡ true
      → IfReturns (λ _ t. Written d s t) (classify_row now d s)
  unfolding classify_row
  classify_row-Written d s h m a =
      IfReturns-bind (λ _ t. Written d s t) (λ _ t. Written d s t)
        (write_delivery d.id (lose_attempt now)) _ s
        (write-Written (lose_attempt now) d s h (λ x. refl) m
          (ended-Later d (lose_attempt now d) a refl refl refl refl refl)
          (λ k. lose-IsStorable d k now a))
        (λ _ t w.
          IfReturns-imp (λ _ u. Onward t u × (u.deliveries ≡ t.deliveries)) (λ _ u. Written d s u)
            (record_visible_email_failure d.id now true t)
            (λ _ u k. record {
              onward = Onward-trans w.onward k.0;
              others = λ x o n. rw k.1 (w.others x o n);
            })
            (IfReturns-both (λ _ u. Onward t u) (λ _ u. u.deliveries ≡ t.deliveries)
              (record_visible_email_failure d.id now true t)
              ((Keeps-record_visible_email_failure d.id now true).at t w.onward.stored)
              (record_visible_email_failure-deliveries d.id now true t)))

  classify_rows-Onward :
      (rows : List ReminderDelivery) (s : Db)
      → Awaits is_attempt_started rows s
      → IfReturns (λ _ t. Onward s t) (for_each rows (classify_row now) s)
  unfolding for_each
  classify_rows-Onward [] s h = Onward-refl s h.stored
  classify_rows-Onward (d ∷ rows) s h =
      IfReturns-bind (λ _ t. Onward s t) (λ _ t. Written d s t) (classify_row now d) _ s
        (classify_row-Written d s h.stored h.found.0.0 h.found.0.1)
        (λ _ t w.
          Onward-from (for_each rows (classify_row now) t) w.onward
            (classify_rows-Onward rows t (Awaits-next is_attempt_started d rows s t h w)))

pub Keeps-classify_unknown :
    (locked : ℕ → Bool) (now older_than_seconds limit : ℕ)
    → Keeps (classify_unknown locked now older_than_seconds limit)
unfolding classify_unknown lost_rows
Keeps-classify_unknown locked now older_than_seconds limit =
    Keeps-bind_read (λ s. minus now (older_than_seconds * second)) _
      (λ cutoff s _ h.
        Onward-bind (for_each (lost_rows locked cutoff limit s) (classify_row now))
          (λ _. pure (length (lost_rows locked cutoff limit s))) s
          (classify_rows-Onward now (lost_rows locked cutoff limit s) s (
            read-Awaits is_attempt_started
              (λ d.
                is_attempt_started d.state && opt_lt d.authorized_at cutoff && not (locked d.id))
              started_before limit s h (λ d t. ground (arith, t))))
          (λ _. Keeps-pure _))
