-- ===== src/Jobs/Tests.antt =====
-- Claiming the sample delivery when it is due.
use mad_devs_note_taker.Base.{ℕ, ◌*◌, ◌<◌, Bool, false, arith}
use mad_devs_note_taker.Session.{day}
use mad_devs_note_taker.Session.Rules.{Returns, Ends}
use mad_devs_note_taker.Fixtures.{sample_db}
use mad_devs_note_taker.Jobs.Claim.{is_claimable, claim_due_batch, scan_and_enqueue}
use mad_devs_note_taker.Jobs.Claim.Scan.{
  left, IsBatch, IsScanned, claim_due_batch-IsBatch, scan_and_enqueue-IsScanned,
}

abbrev none_locked : ℕ → Bool
none_locked id = false

claim_due_batch-IsBatch_example :
    Returns
      (IsBatch none_locked (10 * day) 900 120 (omega arith) (omega arith) (omega arith) 5 sample_db)
      (claim_due_batch none_locked (10 * day) 900 120 5 sample_db)
claim_due_batch-IsBatch_example =
    claim_due_batch-IsBatch none_locked (10 * day) 900 120 (omega arith) (omega arith) (omega arith)
      5 sample_db (tt, tt)

few_left :
    left none_locked (10 * day) 900 120 (omega arith) (omega arith) (omega arith) sample_db
    < 100 * 1
unfolding is_claimable
few_left = omega arith

scan_and_enqueue-IsScanned_example :
    Ends
      (IsScanned none_locked (10 * day) 900 120 (omega arith) (omega arith) (omega arith) sample_db)
      (scan_and_enqueue 1 none_locked (10 * day) 900 120 0 sample_db)
scan_and_enqueue-IsScanned_example =
    scan_and_enqueue-IsScanned none_locked (10 * day) 900 120 (omega arith) (omega arith)
      (omega arith) 1 0 sample_db (tt, tt) few_left
