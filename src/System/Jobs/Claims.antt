-- ===== src/System/Jobs/Claims.antt =====
-- Claiming keeps the constraints.
use mad_devs_note_taker.Base.{
  ℕ, ◌*◌, ◌≡◌, refl, Bool, true, ◌&&◌, not, ltb, List, [], ◌∷◌, suc, length, Bool-cases, inl, inr,
  arith,
}
use mad_devs_note_taker.Base.Apart.{Member}
use mad_devs_note_taker.Models.{Db, ReminderDelivery, is_open}
use mad_devs_note_taker.Session.{pure, minus, plus, second, uuid4}
use mad_devs_note_taker.Session.Rules.{IfReturns, IfReturns-bind, IfReturns-read}
use mad_devs_note_taker.Storage.Rows.{miss-IsStorable, lease-IsStorable}
use mad_devs_note_taker.Reminders.{write_delivery}
use mad_devs_note_taker.Jobs.Claim.{
  is_claimable, due_rows, due_before, miss_delivery, lease_delivery, claim_row, claim_rows,
  claim_due_batch,
}
use mad_devs_note_taker.System.Keeps.{
  IsStored, Onward, Onward-refl, Onward-trans, draw-Onward, Keeps, Keeps-pure,
}
use mad_devs_note_taker.System.Effects.{Onward-bind}
use mad_devs_note_taker.System.Jobs.{
  open-Later, Written, write-Written, Written-after, Awaits, Awaits-next, read-Awaits,
}

module _ (now cutoff lease_seconds : ℕ) where
  claim_row-Written :
      (d : ReminderDelivery) (s : Db)
      → IsStored s
      → Member d s.deliveries
      → is_open d.state ≡ true
      → IfReturns (λ _ t. Written d s t) (claim_row now cutoff lease_seconds d s)
  unfolding claim_row write_delivery uuid4
  claim_row-Written d s h m o = elim (Bool-cases (ltb d.due_at cutoff)) [
    | inl past ↦ rw past (
        write-Written (miss_delivery now) d s h (λ x. refl) m
          (open-Later d (miss_delivery now d) o refl refl refl refl)
          (λ k. miss-IsStorable d k now o))
    | inr due ↦ rw due (
        let t : Db = record s { next_uuid = suc s.next_uuid } in
        let k : Onward s t = draw-Onward s t h refl refl refl in
        IfReturns-read (λ _ u. Written d s u) (plus now (lease_seconds * second)) _ t
          (λ expires _. Written-after d s t _ k refl (
            write-Written (lease_delivery s.next_uuid expires) d t k.stored (λ x. refl) m
              (open-Later d (lease_delivery s.next_uuid expires d) o refl refl refl refl)
              (λ l. lease-IsStorable d l s.next_uuid expires o))))
  ]

  claim_rows-Onward :
      (rows : List ReminderDelivery) (s : Db)
      → Awaits is_open rows s
      → IfReturns (λ _ t. Onward s t) (claim_rows now cutoff lease_seconds rows s)
  unfolding claim_rows
  claim_rows-Onward [] s h = Onward-refl s h.stored
  claim_rows-Onward (d ∷ rows) s h =
      IfReturns-bind (λ _ t. Onward s t) (λ _ t. Written d s t)
        (claim_row now cutoff lease_seconds d) _ s
        (claim_row-Written d s h.stored h.found.0.0 h.found.0.1)
        (λ claim t w.
          IfReturns-bind (λ _ u. Onward s u) (λ _ u. Onward t u)
            (claim_rows now cutoff lease_seconds rows) _ t
            (claim_rows-Onward rows t (Awaits-next is_open d rows s t h w))
            (λ claims u k. Onward-trans w.onward k))

claimable-open :
    (now : ℕ) (d : ReminderDelivery) → is_claimable now d ≡ true → is_open d.state ≡ true
unfolding is_claimable
claimable-open now d h = ground arith

pub Keeps-claim_due_batch :
    (locked : ℕ → Bool) (now grace_seconds lease_seconds limit : ℕ)
    → Keeps (claim_due_batch locked now grace_seconds lease_seconds limit)
unfolding claim_due_batch due_rows
Keeps-claim_due_batch locked now grace_seconds lease_seconds limit = record {
  at = λ s h.
      IfReturns-read (λ _ t. Onward s t) (minus now (grace_seconds * second)) _ s
        (λ cutoff _.
          Onward-bind (claim_rows now cutoff lease_seconds (due_rows locked now limit s))
            (λ claims. pure (claims, length (due_rows locked now limit s))) s
            (claim_rows-Onward now cutoff lease_seconds (due_rows locked now limit s) s (
              read-Awaits is_open (λ d. is_claimable now d && not (locked d.id)) due_before limit s
                h (λ d t. claimable-open now d (ground (arith, t)))))
            (λ claims. Keeps-pure _));
}
