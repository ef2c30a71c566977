-- ===== src/Realtime/Tests.antt =====
-- An outage with two failed attempts, and two clients of which one goes.
use mad_devs_note_taker.Base.{
  ℕ, ◌==◌, ◌≡◌, Bool, false, [], ◌∷◌, refl, arith, All, List, true, length, ◌+◌,
}
use mad_devs_note_taker.Realtime.{
  Manager, Subscriber, Signal, subscribed, failure, resync_required, broadcast, run,
}
use mad_devs_note_taker.Realtime.Outage.{InBounds, run_outage, run_delays}

abbrev two_clients : Manager ℕ
two_clients = record { connections = 1 ∷ 2 ∷ []; sent = [] }

abbrev first_only : ℕ → Bool
first_only c = c == 1

abbrev running : Subscriber ℕ
running = record { failed = false; delay = 1; manager = two_clients; slept = [] }

abbrev both : ℕ → Bool
both c = true

abbrev outage : List ((ℕ → Bool) × Signal ℕ)
outage = (both, failure) ∷ (first_only, failure) ∷ (first_only, subscribed) ∷ []

run_outage_example :
    ((run outage running).manager
      ≡ broadcast first_only resync_required (broadcast both resync_required two_clients))
    × ((run outage running).failed ≡ false)
    × ((run outage running).delay ≡ 1)
run_outage_example = run_outage both (first_only ∷ []) first_only running refl

run_delays_example :
    (length (run outage running).slept ≡ 0 + 2) × All InBounds (run outage running).slept
run_delays_example = run_delays outage running (omega arith, omega arith) tt
