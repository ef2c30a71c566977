-- ===== src/System/Jobs/Handed.antt =====
-- A message that leaves the system belongs to a delivery that had not been attempted, and then has.
use mad_devs_note_taker.Base.{
  ℕ, ◌≡◌, ◌∙◌, refl, sym, ap, subst, Bool, true, false, Option, some, none, List, [], ◌∷◌, All,
  All-imp, Some, select, inl, inr, ◌==◌, ==_refl,
}
use mad_devs_note_taker.Base.Apart.{Member, Evolves, more, next}
use mad_devs_note_taker.Models.{
  Db, Text, Note, ReminderRule, RecurrenceSeries, ReminderDelivery, DeliveryState,
}
use mad_devs_note_taker.Email.{Email}
use mad_devs_note_taker.Deliveries.{Later, reaches, same_row}
use mad_devs_note_taker.Session.{one}
use mad_devs_note_taker.Session.Rules.{
  IfReturns, IfReturns-bind, IfReturns-read, IfReturns-imp, IfReturns-both,
}
use mad_devs_note_taker.Jobs.Authorize.{
  Ids, authorize_delivery, authorize_locked, check_found, check_delivery, delivery_ids, with_ids,
  lock_series,
}
use mad_devs_note_taker.Jobs.Authorize.Sends.{IsSent, IsChecked, check_delivery-IsChecked}
use mad_devs_note_taker.System.Keeps.{IsStored, Onward}
use mad_devs_note_taker.Session.Found.{one-found}
use mad_devs_note_taker.System.Jobs.Sends.{check_delivery-Onward}

abbrev pub has_started : DeliveryState → Bool
has_started state = reaches DeliveryState.attempt_started state

-- The message's delivery has been attempted.
abbrev pub IsHanded : ReminderDelivery → Email → Type 0
IsHanded d email = (d.id ≡ email.message_id.0) × (has_started d.state ≡ true)

-- What a transaction that hands out a message does to its delivery.
abbrev pub HandsOut : Db → Option Email → Db → Type 0
HandsOut s none t = Unit
HandsOut s (some email) t =
    All (λ (d : ReminderDelivery). d.id ≡ email.message_id.0 → has_started d.state ≡ false)
      s.deliveries
    × Some (λ (d : ReminderDelivery). IsHanded d email) t.deliveries

module _ {A : Type 0} where
  -- A row of the earlier table goes on in the later one.
  pub Some-Evolves :
      (R : A → A → Type 0) (P Q : A → Type 0)
      → ((x y : A) → R x y → P x → Q y)
      → {xs ys : List A} → Evolves R xs ys
      → Some P xs
      → Some Q ys
  Some-Evolves R P Q f more h = absurd h
  Some-Evolves R P Q f (next {x = x} {y = y} r e) (inl p) = inl (f x y r p)
  Some-Evolves R P Q f (next r e) (inr h) = inr (Some-Evolves R P Q f e h)

  Some-both :
      (P Q S : A → Type 0)
      → ((x : A) → P x → Q x → S x)
      → (xs : List A) → All P xs
      → Some Q xs
      → Some S xs
  Some-both P Q S f [] a h = absurd h
  Some-both P Q S f (x ∷ xs) a (inl q) = inl (f x a.0 q)
  Some-both P Q S f (x ∷ xs) a (inr h) = inr (Some-both P Q S f xs a.1 h)

module _ (token now grace_seconds : ℕ) (default_email : Text) (ids : Ids) (note : Note)
    (rule : ReminderRule) where
  handed :
      (d : ReminderDelivery) (s t : Db) (email : Email)
      → IsStored s
      → Member d s.deliveries
      → IsSent token now grace_seconds rule note d s email t
      → Onward s t
      → HandsOut s (some email) t
  handed d s t email h m sent o = (
    All-imp _ _
        (λ x same e.
          let k : x.id ≡ d.id = e ∙ ap (λ p. p.0) sent.message in
          let q : x ≡ d = same (rw k (==_refl d.id)) in rw (q, sent.claimed) refl)
        s.deliveries (same_row d s.deliveries h.deliveries.apart m),
    Some-both _ _ _
        (λ x started later.
          let k : x.id ≡ d.id = later.same_id in
          (k ∙ sym (ap (λ p. p.0) sent.message), rw (started k) refl))
        t.deliveries sent.started
        (Some-Evolves Later (λ x. x ≡ d) (λ y. Later d y) (λ x y l e. subst (λ z. Later z y) e l)
          o.evolves m),
  )

  check_delivery-HandsOut :
      (d : ReminderDelivery) (s : Db)
      → IsStored s
      → Member d s.deliveries
      → IfReturns
          (HandsOut s)
          (check_delivery token now grace_seconds default_email ids note rule d s)
  check_delivery-HandsOut d s h m =
      IfReturns-imp (λ o t. IsChecked token now grace_seconds rule note d s o t × Onward s t)
        (HandsOut s) _ out
        (IfReturns-both (IsChecked token now grace_seconds rule note d s) (λ _ t. Onward s t)
          (check_delivery token now grace_seconds default_email ids note rule d s)
          (check_delivery-IsChecked token now grace_seconds default_email ids rule note d s)
          (check_delivery-Onward token now grace_seconds default_email ids note rule d s h m))
    where
      out :
          (o : Option Email) (t : Db)
          → IsChecked token now grace_seconds rule note d s o t × Onward s t
          → HandsOut s o t
      out none t k = tt
      out (some email) t (sent, o) = handed d s t email h m sent o

same_state : (o : Option ℕ) (s : Db) → IfReturns (λ _ t. t ≡ s) (lock_series o s)
unfolding lock_series
same_state none s = refl
same_state (some id) s =
    IfReturns-read (λ _ t. t ≡ s)
      (one (select (λ (r : RecurrenceSeries). r.id == id) s.recurrence_series)) _ s (λ _ _. refl)

module _ (delivery_id token now grace_seconds : ℕ) (default_email : Text) where
  locked-HandsOut :
      (ids : Ids) (s : Db)
      → IsStored s
      → IfReturns
          (HandsOut s)
          (authorize_locked delivery_id token now grace_seconds default_email ids s)
  unfolding authorize_locked check_found
  locked-HandsOut ids s h =
      IfReturns-bind (HandsOut s) (λ _ t. t ≡ s) (lock_series ids.series_id) _ s
        (same_state ids.series_id s)
        (λ _ t e. rw e (
          IfReturns-read (HandsOut s) (one (select (λ (n : Note). n.id == ids.note_id) s.notes)) _ s
            (λ note _.
              IfReturns-read (HandsOut s)
                (one (select (λ (r : ReminderRule). r.id == ids.rule_id) s.rules)) _ s
                (λ rule _.
                  IfReturns-read (HandsOut s)
                    (one (select (λ (d : ReminderDelivery). d.id == delivery_id) s.deliveries)) _ s
                    (λ d q.
                      check_delivery-HandsOut token now grace_seconds default_email ids note rule d
                        s h
                        (one-found (λ (x : ReminderDelivery). x.id == delivery_id) d s.deliveries
                          q).0)))))

  -- Where an authorization returns a message, no row of that delivery's identifier had been attempted before,
  -- and one has after.
  pub authorize_delivery-HandsOut :
      (s : Db)
      → IsStored s
      → IfReturns
          (HandsOut s)
          (authorize_delivery delivery_id token now grace_seconds default_email s)
  unfolding authorize_delivery
  authorize_delivery-HandsOut s h = found (delivery_ids delivery_id s)
    where
      found :
          (o : Option Ids)
          → IfReturns
              (HandsOut s)
              (with_ids (authorize_locked delivery_id token now grace_seconds default_email) o s)
      found none = tt
      found (some ids) = locked-HandsOut ids s h
