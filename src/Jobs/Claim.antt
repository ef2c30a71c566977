-- ===== src/Jobs/Claim.antt =====
-- Claiming due deliveries: `_claim_due_batch`, `claim_due` and `scan_and_enqueue` of
-- backend/app/jobs/reminders.py.
--
-- `locked` tells which rows another transaction holds: SKIP LOCKED passes over them. A failed enqueue
-- changes nothing here: the caller ignores it.
pub mod Batch
pub mod Scan
use mad_devs_note_taker.Base.{
  ℕ, zero, suc, ◌+◌, ◌*◌, Bool, true, false, ◌&&◌, ◌||◌, not, if◌then◌else◌, ltb, leb, ◌==◌, opt_le,
  Option, some, none, List, [], ◌∷◌, ◌++◌, select, take, length,
}
use mad_devs_note_taker.Base.Tables.{update_where, order_by}
use mad_devs_note_taker.Base.Results.{Result, ok, err}
use mad_devs_note_taker.Models.{Db, ReminderDelivery, DeliveryState, is_pending, is_claimed}
use mad_devs_note_taker.Session.{
  M, Job, commit, done, ◌>>=◌, ◌>>◌, pure, lift, gets, minus, plus, second, uuid4, Error,
}
use mad_devs_note_taker.Reminders.{write_delivery}

-- The condition of the query: pending, or claimed with a lease that has run out, and due.
unfoldable pub is_claimable : ℕ → ReminderDelivery → Bool
is_claimable now d =
    (is_pending d.state || (is_claimed d.state && opt_le d.claim_expires_at now))
    && leb d.due_at now

abbrev pub due_before : ReminderDelivery → ReminderDelivery → Bool
due_before a b = ltb a.due_at b.due_at || ((a.due_at == b.due_at) && leb a.id b.id)

unfoldable pub due_rows : (ℕ → Bool) → ℕ → ℕ → Db → List ReminderDelivery
due_rows locked now limit s = take limit (
    order_by due_before
      (select (λ (d : ReminderDelivery). is_claimable now d && not (locked d.id)) s.deliveries))

abbrev pub miss_delivery : ℕ → ReminderDelivery → ReminderDelivery
miss_delivery now d = record d {
  state = DeliveryState.missed;
  claim_token = none;
  claim_expires_at = none;
  result_at = some now;
}

abbrev pub lease_delivery : ℕ → ℕ → ReminderDelivery → ReminderDelivery
lease_delivery token expires d = record d {
  state = DeliveryState.claimed;
  claim_token = some token;
  claim_expires_at = some expires;
}

-- One row: missed when it is past its grace, else claimed with a new token.
unfoldable pub claim_row : ℕ → ℕ → ℕ → ReminderDelivery → M (List (ℕ × ℕ))
claim_row now cutoff lease_seconds d =
    if ltb d.due_at cutoff then (do write_delivery d.id (miss_delivery now); pure []) else (do
      token ← uuid4
      expires ← lift (plus now (lease_seconds * second))
      write_delivery d.id (lease_delivery token expires)
      pure ((d.id, token) ∷ []))

unfoldable pub claim_rows : ℕ → ℕ → ℕ → List ReminderDelivery → M (List (ℕ × ℕ))
claim_rows now cutoff lease_seconds [] = pure []
claim_rows now cutoff lease_seconds (d ∷ ds) = do
  claim ← claim_row now cutoff lease_seconds d
  claims ← claim_rows now cutoff lease_seconds ds
  pure (claim ++ claims)

-- The claims, and the number of rows that were read.
unfoldable pub claim_due_batch : (ℕ → Bool) → ℕ → ℕ → ℕ → ℕ → M (List (ℕ × ℕ) × ℕ)
claim_due_batch locked now grace_seconds lease_seconds limit = do
  rows ← gets (due_rows locked now limit)
  cutoff ← lift (minus now (grace_seconds * second))
  claimed ← claim_rows now cutoff lease_seconds rows
  pure (claimed, length rows)

unfoldable pub claim_due : (ℕ → Bool) → ℕ → ℕ → ℕ → ℕ → M (List (ℕ × ℕ))
unfolding claim_due_batch
claim_due locked now grace_seconds lease_seconds limit = do
  batch ← claim_due_batch locked now grace_seconds lease_seconds limit
  pure batch.0

-- `while True`: batches of 100, each a transaction of its own, until one is not full; `none` stands for fuel that
-- ran out. No other transaction runs between two batches.
unfoldable pub scan_and_enqueue : ℕ → (ℕ → Bool) → ℕ → ℕ → ℕ → ℕ → Job (Option ℕ)
scan_and_enqueue zero locked now grace_seconds lease_seconds total = done none
scan_and_enqueue (suc fuel) locked now grace_seconds lease_seconds total =
    commit (claim_due_batch locked now grace_seconds lease_seconds 100) (λ batch.
      let rest =
        scan_and_enqueue fuel locked now grace_seconds lease_seconds (total + length batch.0) in
      if ltb batch.1 100 then done (some (total + length batch.0)) else rest)
