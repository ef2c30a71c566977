-- ===== src/System/History/Once.antt =====
-- No delivery's message leaves twice.
use mad_devs_note_taker.Base.{
  ℕ, ◌*◌, ◌-◌, ◌≡◌, ◌≢◌, ◌∙◌, refl, Bool, true, false, if◌then◌else◌, all, Option, some, none, List,
  [], ◌∷◌, ◌++◌, All, All-imp, All-append, Some, Bool-cases, inl, inr, arith,
}
use mathlib.Core.List.{append-nil}
use mad_devs_note_taker.Base.Apart.{Apart, Apart-append, Evolves, Evolves-refl, Evolves-trans}
use mad_devs_note_taker.Base.Results.{Result, ok, err}
use mad_devs_note_taker.Models.{Db, ReminderDelivery, DeliveryState}
use mad_devs_note_taker.Email.{Email}
use mad_devs_note_taker.Deliveries.{Later, Later-refl, Later-trans, reaches_trans}
use mad_devs_note_taker.Session.{M, Error, pure, day}
use mad_devs_note_taker.Session.Rules.{IfReturns, IfReturns-bind, IfReturns-imp, IfReturns-both}
use mad_devs_note_taker.Storage.{is_storable}
use mad_devs_note_taker.Jobs.Maintenance.{is_delivery_of, purge_trash}
use mad_devs_note_taker.System.Requests.{Request}
use mad_devs_note_taker.System.Execution.{
  Settings, System, silent, run, listed, accepts, exec, replay,
}
use mad_devs_note_taker.System.Keeps.{IsStored, Onward}
use mad_devs_note_taker.System.Jobs.Purge.{purged_ids, purge_trash-Onward}
use mad_devs_note_taker.System.Jobs.Refused.{started_or_none, purge_trash-refused}
use mad_devs_note_taker.System.Jobs.Handed.{
  IsHanded, HandsOut, has_started, Some-Evolves, authorize_delivery-HandsOut,
}
use mad_devs_note_taker.System.History.{Keeps-run}

-- A transaction that hands out no message.
record Quiet (m : M (Option Email)) : Type 0 where
  at : (s : Db) → IfReturns (λ o _. o ≡ none) (m s)

returned : {A : Type 0} (r : Result Error (A × Db)) → IfReturns (λ _ _. Unit) r
returned (ok (a, t)) = tt
returned (err e) = tt

Quiet-silent : {A : Type 0} (m : M A) → Quiet (silent m)
Quiet-silent m = record {
  at = λ s.
      IfReturns-bind (λ o _. o ≡ none) (λ _ _. Unit) m (λ _. pure none) s (returned (m s))
        (λ _ _ _. refl);
}

abbrev is_authorize : Request → Bool
is_authorize (Request.authorize_delivery id token now grace) = true
is_authorize _ = false

run-Quiet : (w : Settings) (r : Request) → is_authorize r ≡ false → Quiet (run w r)
unfolding run
run-Quiet w (Request.authorize_delivery id token now grace) e = absurd cc
run-Quiet w (Request.update_profile_settings p) _ = Quiet-silent _
run-Quiet w (Request.create_tag p) _ = Quiet-silent _
run-Quiet w (Request.update_tag id p) _ = Quiet-silent _
run-Quiet w (Request.delete_tag id version) _ = Quiet-silent _
run-Quiet w (Request.create_note p) _ = Quiet-silent _
run-Quiet w (Request.update_note id p) _ = Quiet-silent _
run-Quiet w (Request.delete_note id version expected) _ = Quiet-silent _
run-Quiet w (Request.restore_note id p) _ = Quiet-silent _
run-Quiet w (Request.create_series p) _ = Quiet-silent _
run-Quiet w (Request.split_series id p) _ = Quiet-silent _
run-Quiet w (Request.trash_series_portion id p) _ = Quiet-silent _
run-Quiet w (Request.restore_trash_action id version) _ = Quiet-silent _
run-Quiet w (Request.restore_series_portion id p) _ = Quiet-silent _
run-Quiet w (Request.claim_due_batch locked now grace lease limit) _ = Quiet-silent _
run-Quiet w (Request.record_outcome id email outcome) _ = Quiet-silent _
run-Quiet w (Request.classify_unknown locked now older limit) _ = Quiet-silent _
run-Quiet w (Request.publish_batch locked publish now limit) _ = Quiet-silent _
run-Quiet w (Request.maintain locked now) _ = Quiet-silent _
run-Quiet w (Request.purge_trash now retention_days limit) _ = Quiet-silent _

run-HandsOut :
    (w : Settings) (r : Request) (s : Db) → IsStored s → IfReturns (HandsOut s) (run w r s)
unfolding run
run-HandsOut w (Request.authorize_delivery id token now grace) s h =
    authorize_delivery-HandsOut id token now grace w.defaults.email s h
run-HandsOut w r s h =
    IfReturns-imp (λ o _. o ≡ none) (HandsOut s) (run w r s) (λ o t e. nothing o t e)
      ((run-Quiet w r refl).at s)
  where
    nothing : (o : Option Email) (t : Db) → o ≡ none → HandsOut s o t
    nothing none t e = tt
    nothing (some email) t e = absurd cc

-- What the data base accepts keeps the constraints, a purge included.
purge-accepted :
    (w : Settings) (now retention_days limit : ℕ) (s : Db)
    → IsStored s
    → IfReturns
        (λ _ t. accepts t ≡ true → Onward s t)
        (run w (Request.purge_trash now retention_days limit) s)
unfolding run
purge-accepted w now retention_days limit s h =
    IfReturns-bind (λ _ t. accepts t ≡ true → Onward s t) (λ _ t. accepts t ≡ true → Onward s t)
      (purge_trash now retention_days limit) (λ _. pure none) s
      (elim (started_or_none (is_delivery_of (purged_ids (now - retention_days * day) limit s) s)
        s.deliveries) [
          | inl none_started ↦
              IfReturns-imp (λ _ t. Onward s t) (λ _ t. accepts t ≡ true → Onward s t) _
                (λ _ t o _. o) (purge_trash-Onward now retention_days limit s h none_started)
          | inr started ↦
              IfReturns-imp (λ _ t. all is_storable t.deliveries ≡ false)
                (λ _ t. accepts t ≡ true → Onward s t) _
                (λ _ t refused accepted. absurd (ground (arith, refused, accepted)))
                (purge_trash-refused now retention_days limit s started)
        ])
      (λ _ t k. k)

pub run-accepted :
    (w : Settings) (r : Request) (s : Db)
    → IsStored s
    → IfReturns (λ _ t. accepts t ≡ true → Onward s t) (run w r s)
run-accepted w (Request.purge_trash now retention_days limit) s h =
    purge-accepted w now retention_days limit s h
run-accepted w r s h =
    IfReturns-imp (λ _ t. Onward s t) (λ _ t. accepts t ≡ true → Onward s t) (run w r s)
      (λ _ t o _. o) ((Keeps-run w r refl).at s h)

abbrev pub OtherDelivery : Email → Email → Type 0
OtherDelivery e f = e.message_id.0 ≢ f.message_id.0

-- The tables' constraints; each message that was handed out belongs to a delivery that has been attempted;
-- no two of them belong to the same one.
pub record IsSound (sys : System) : Type 0 where
  pub stored : IsStored sys.db
  pub handed :
      All (λ (e : Email). Some (λ (d : ReminderDelivery). IsHanded d e) sys.db.deliveries) sys.sent
  pub once : Apart OtherDelivery sys.sent

IsHanded-Later : (e : Email) (d f : ReminderDelivery) → Later d f → IsHanded d e → IsHanded f e
IsHanded-Later e d f l h =
    (l.same_id ∙ h.0, reaches_trans DeliveryState.attempt_started d.state f.state h.1 l.reached)

-- A message that is handed out is not one of those before.
is_new :
    (e f : Email) (ds : List ReminderDelivery)
    → All (λ (d : ReminderDelivery). d.id ≡ f.message_id.0 → has_started d.state ≡ false) ds
    → Some (λ (d : ReminderDelivery). IsHanded d e) ds
    → OtherDelivery e f
is_new e f [] a h same = absurd h
is_new e f (d ∷ ds) a (inl h) same =
    let k : d.id ≡ f.message_id.0 = h.0 ∙ same in absurd (cc (a.0 k, h.1))
is_new e f (d ∷ ds) a (inr h) same = is_new e f ds a.1 h same

module _ (sys : System) (h : IsSound sys) where
  commit-IsSound :
      (o : Option Email) (t : Db)
      → Onward sys.db t
      → HandsOut sys.db o t
      → IsSound (record { db = t; sent = sys.sent ++ listed o })
  commit-IsSound o t k out = record {
    stored = k.stored;
    handed = All-append _ sys.sent (listed o) still (added o out);
    once = apart o out;
  }
    where
      still :
          All (λ (e : Email). Some (λ (d : ReminderDelivery). IsHanded d e) t.deliveries) sys.sent
      still =
          All-imp _ _
            (λ e m.
              Some-Evolves Later (λ d. IsHanded d e) (λ d. IsHanded d e) (IsHanded-Later e)
                k.evolves m)
            sys.sent h.handed

      added :
          (o : Option Email)
          → HandsOut sys.db o t
          → All
              (λ (e : Email). Some (λ (d : ReminderDelivery). IsHanded d e) t.deliveries)
              (listed o)
      added none out = tt
      added (some e) out = (out.1, tt)

      apart : (o : Option Email) → HandsOut sys.db o t → Apart OtherDelivery (sys.sent ++ listed o)
      apart none out = rw (append-nil sys.sent) h.once
      apart (some f) out =
          Apart-append OtherDelivery sys.sent f h.once
            (All-imp _ _ (λ e m. is_new e f sys.db.deliveries out.0 m) sys.sent h.handed)

  pub exec-IsSound :
      (w : Settings) (r : Request)
      → IsSound (exec w r sys) × Evolves Later sys.db.deliveries (exec w r sys).db.deliveries
  unfolding exec
  exec-IsSound w r = after (run w r sys.db) (
      IfReturns-both (λ _ t. accepts t ≡ true → Onward sys.db t) (HandsOut sys.db) (run w r sys.db)
        (run-accepted w r sys.db h.stored) (run-HandsOut w r sys.db h.stored))
    where
      after :
          (x : Result Error (Option Email × Db))
          → IfReturns (λ o t. (accepts t ≡ true → Onward sys.db t) × HandsOut sys.db o t) x
          → (λ (y : System). IsSound y × Evolves Later sys.db.deliveries y.db.deliveries)
              (elim x [
                | err e ↦ sys
                | ok (o, t) ↦
                    if accepts t then record { db = t; sent = sys.sent ++ listed o } else sys
              ])
      after (err e) k = (h, Evolves-refl Later-refl sys.db.deliveries)
      after (ok (o, t)) (k, out) = elim (Bool-cases (accepts t)) [
        | inl a ↦ rw a (commit-IsSound o t (k a) out, (k a).evolves)
        | inr f ↦ rw f (h, Evolves-refl Later-refl sys.db.deliveries)
      ]

-- After any sequence of requests, from a system with the tables' constraints in which each message that was
-- handed out belongs to a delivery attempted since and no two to the same: that still holds, so no delivery's
-- message has been handed out twice, and each delivery has only moved forward.
pub replay-IsSound :
    (w : Settings) (rs : List Request) (sys : System)
    → IsSound sys
    → IsSound (replay w rs sys) × Evolves Later sys.db.deliveries (replay w rs sys).db.deliveries
unfolding replay
replay-IsSound w [] sys h = (h, Evolves-refl Later-refl sys.db.deliveries)
replay-IsSound w (r ∷ rs) sys h =
    let (k, e) = exec-IsSound sys h w r in
    let (l, f) = replay-IsSound w rs (exec w r sys) k in (l, Evolves-trans Later-trans e f)
