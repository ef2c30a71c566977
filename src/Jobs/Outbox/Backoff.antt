-- ===== src/Jobs/Outbox/Backoff.antt =====
-- The waits between the attempts of an event of the outbox.
use mad_devs_note_taker.Base.{ℕ, zero, suc, ◌-◌, ◌^◌, ◌≤◌, ◌≡◌, refl, min, arith, inl, inr, ◌⊎◌}
use mad_devs_note_taker.Jobs.Outbox.{backoff_seconds}

-- From the first attempt on, the wait after a failure is 1, 2, 4, 8, 16 and 32 seconds, then a minute each time.
pub backoff_seconds-steps :
    (attempts : ℕ)
    → 1 ≤ attempts
    → ((attempts ≤ 6) × (backoff_seconds attempts ≡ 2 ^ (attempts - 1)))
      ⊎ ((7 ≤ attempts) × (backoff_seconds attempts ≡ 60))
unfolding backoff_seconds
backoff_seconds-steps zero h = absurd (omega (arith, h))
backoff_seconds-steps (suc zero) h = inl (omega arith, refl)
backoff_seconds-steps (suc (suc zero)) h = inl (omega arith, refl)
backoff_seconds-steps (suc (suc (suc zero))) h = inl (omega arith, refl)
backoff_seconds-steps (suc (suc (suc (suc zero)))) h = inl (omega arith, refl)
backoff_seconds-steps (suc (suc (suc (suc (suc zero))))) h = inl (omega arith, refl)
backoff_seconds-steps (suc (suc (suc (suc (suc (suc zero)))))) h = inl (omega arith, refl)
backoff_seconds-steps (suc (suc (suc (suc (suc (suc (suc n))))))) h =
    let e : min (suc (suc (suc (suc (suc (suc (suc n)))))) - 1) 6 ≡ 6 = omega arith in
    inr (omega arith, rw e refl)
