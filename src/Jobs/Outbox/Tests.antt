-- ===== src/Jobs/Outbox/Tests.antt =====
-- The third attempt of an event.
use mad_devs_note_taker.Base.{◌-◌, ◌^◌, ◌≤◌, ◌≡◌, ◌⊎◌, arith}
use mad_devs_note_taker.Jobs.Outbox.{backoff_seconds}
use mad_devs_note_taker.Jobs.Outbox.Backoff.{backoff_seconds-steps}

backoff_seconds-steps_example :
    ((3 ≤ 6) × (backoff_seconds 3 ≡ 2 ^ (3 - 1))) ⊎ ((7 ≤ 3) × (backoff_seconds 3 ≡ 60))
backoff_seconds-steps_example = backoff_seconds-steps 3 (omega arith)
