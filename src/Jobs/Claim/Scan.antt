-- ===== src/Jobs/Claim/Scan.antt =====
-- A whole batch of claims, and the scan that repeats batches until one is not full.
use mad_devs_note_taker.Base.{
  ℕ, zero, suc, ◌+◌, ◌*◌, ◌-◌, ◌≤◌, ◌<◌, ◌≡◌, ◌≢◌, sym, min, Bool, true, List, arith, All, All-take,
  select, length, length-take, ltb, Option, none, Bool-cases, inl, inr,
}
use mad_devs_note_taker.Base.Apart.{
  Apart, Apart-take, Apart-order_by, Apart-select, Member, All-of, select-Member, Evolves,
  Evolves-trans,
}
use mad_devs_note_taker.Base.Tables.{order_by, length-order_by, All-order_by}
use mad_devs_note_taker.Base.Results.{ok}
use mad_devs_note_taker.Models.{Db, ReminderDelivery}
use mad_devs_note_taker.Deliveries.{OtherId, Later, Later-trans}
use mad_devs_note_taker.Session.{second, minus, end_of_time}
use mad_devs_note_taker.Session.Rules.{Returns, Returns-bind, Ends, Ends-commit, Ends-imp}
use mad_devs_note_taker.Jobs.Claim.{
  due_rows, due_before, claim_rows, claim_due_batch, scan_and_enqueue,
}
use mad_devs_note_taker.Jobs.Claim.Batch.{
  waits, waiting, Settled, Rows, Claimed, IsClaimed, claim_rows-Claimed,
}

module _ (locked : ℕ → Bool) (now grace_seconds lease_seconds : ℕ) (lease : 0 < lease_seconds)
    (room : now + lease_seconds * second < end_of_time) (grace : grace_seconds * second ≤ now) where
  abbrev pub left : Db → ℕ
  left = waiting locked now (now - grace_seconds * second) lease_seconds

  abbrev reads : ReminderDelivery → Bool
  reads = waits locked now (now - grace_seconds * second) lease_seconds

  abbrev IsRead : Db → ReminderDelivery → Type 0
  IsRead s d = Member d s.deliveries × (reads d ≡ true)

  due_rows-Rows :
      (limit : ℕ) (s : Db)
      → Apart OtherId s.deliveries
      → Rows locked now (now - grace_seconds * second) lease_seconds (due_rows locked now limit s) s
  unfolding due_rows
  due_rows-Rows limit s h = record {
    ids = h;
    apart = Apart-take OtherId limit _ (
        Apart-order_by OtherId (λ x y k e. k (sym e)) due_before _
          (Apart-select OtherId _ s.deliveries h));
    there = All-take (IsRead s) limit (order_by due_before (select reads s.deliveries)) (
        All-order_by (IsRead s) due_before (select reads s.deliveries) (
          All-of (IsRead s) (select reads s.deliveries)
            (λ d m. select-Member reads d s.deliveries m)));
  }

  due_rows-length : (limit : ℕ) (s : Db) → length (due_rows locked now limit s) ≡ min limit (left s)
  unfolding due_rows
  due_rows-length limit s = rw (length-take, length-order_by)

  minus-returns : minus now (grace_seconds * second) ≡ ok (now - grace_seconds * second)
  unfolding minus
  minus-returns = ground arith

  -- What a batch returns and leaves.
  pub record IsBatch (limit : ℕ) (s : Db) (batch : List (ℕ × ℕ) × ℕ) (s' : Db) : Type 0 where
    pub ids : Apart OtherId s'.deliveries
    pub bounded : batch.1 ≤ limit
    pub fewer : left s' + batch.1 ≡ left s
    pub exhausted : batch.1 < limit → left s' ≡ 0
    pub evolves : Evolves Later s.deliveries s'.deliveries
    pub settled :
        All
          (Settled locked now (now - grace_seconds * second) lease_seconds batch.0 s')
          (due_rows locked now limit s)
    pub claimed :
        All
          (λ (c : ℕ × ℕ).
            (e : ReminderDelivery) × IsClaimed locked now
              (now - grace_seconds * second)
              lease_seconds
              c
              e
            × Member e s'.deliveries)
          batch.0

  -- With a lease of some length that ends before the end of time, a grace that does not reach before the
  -- first instant, and distinct identifiers: a batch returns. It reads at most `limit` rows; each row that it read is waiting no more: it is
  -- missed when it was due before the grace, else claimed under one of the claims until the lease ends; where the
  -- batch read fewer than `limit`, none is left; each claim names a delivery that is now claimed under the
  -- claim's token, was due, and was within its grace; no delivery moves backwards.
  pub claim_due_batch-IsBatch :
      (limit : ℕ) (s : Db)
      → Apart OtherId s.deliveries
      → Returns (IsBatch limit s) (claim_due_batch locked now grace_seconds lease_seconds limit s)
  unfolding claim_due_batch
  claim_due_batch-IsBatch limit s h = rw minus-returns (
      Returns-bind
        (λ c s'.
          Claimed locked now (now - grace_seconds * second) lease_seconds
            (due_rows locked now limit s) s c s')
        (IsBatch limit s)
        (claim_rows now (now - grace_seconds * second) lease_seconds (due_rows locked now limit s))
        _ s
        (claim_rows-Claimed locked now (now - grace_seconds * second) lease_seconds lease room
          (due_rows locked now limit s) s (due_rows-Rows limit s h))
        (λ c s' k. record {
          ids = k.ids;
          bounded = omega (arith, due_rows-length limit s);
          fewer = k.fewer;
          exhausted = λ short. omega (arith, due_rows-length limit s, k.fewer, short);
          evolves = k.evolves;
          settled = k.settled;
          claimed = k.claimed;
        }))

  -- What a scan that has ended leaves.
  pub record IsScanned (s : Db) (total : Option ℕ) (s' : Db) : Type 0 where
    pub ended : total ≢ none
    pub ids : Apart OtherId s'.deliveries
    pub exhausted : left s' ≡ 0
    pub evolves : Evolves Later s.deliveries s'.deliveries

  -- With a lease of some length that ends before the end of time, a grace that does not reach before the
  -- first instant, and distinct identifiers: the scan ends, with fuel for one batch of 100 rows more than are waiting: no due delivery is left
  -- that a scan at this time would read, and no delivery has moved backwards.
  pub scan_and_enqueue-IsScanned :
      (fuel total : ℕ) (s : Db)
      → Apart OtherId s.deliveries
      → left s < 100 * fuel
      → Ends (IsScanned s) (scan_and_enqueue fuel locked now grace_seconds lease_seconds total s)
  unfolding scan_and_enqueue
  scan_and_enqueue-IsScanned zero total s h enough = absurd (omega arith)
  scan_and_enqueue-IsScanned (suc fuel) total s h enough =
      Ends-commit (IsBatch 100 s) (IsScanned s)
        (claim_due_batch locked now grace_seconds lease_seconds 100) _ s
        (claim_due_batch-IsBatch 100 s h)
        (λ b s' k. elim (Bool-cases (ltb b.1 100)) [
          | inl short ↦ rw short (record {
            ended = λ e. cc;
            ids = k.ids;
            exhausted = k.exhausted (ground arith);
            evolves = k.evolves;
          })
          | inr full ↦ rw full (
              Ends-imp (IsScanned s') (IsScanned s) _
                (λ t s'' l. record {
                  ended = l.ended;
                  ids = l.ids;
                  exhausted = l.exhausted;
                  evolves = Evolves-trans Later-trans k.evolves l.evolves;
                })
                (scan_and_enqueue-IsScanned fuel (total + length b.0) s' k.ids
                  (let n : 100 ≤ b.1 = ground arith in omega (arith, k.fewer, enough, n))))
        ])
