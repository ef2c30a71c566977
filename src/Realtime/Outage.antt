-- ===== src/Realtime/Outage.antt =====
-- What clients are told about an outage of the event channel.
use mad_devs_note_taker.Base.{
  ℕ, suc, ◌*◌, ◌≤◌, ◌≡◌, refl, Bool, true, false, List, [], ◌∷◌, ◌++◌, arith, All, All-append, min,
  length, length-append, ◌+◌,
}
use mad_devs_note_taker.Realtime.{
  Manager, Signal, Subscriber, subscribed, failure, received, resync_required, broadcast, step, run,
}

-- Attempts that fail, each with the sockets that take a message then.
abbrev pub failures : {P : Type 0} → List (ℕ → Bool) → List ((ℕ → Bool) × Signal P)
failures [] = []
failures (sends ∷ rest) = (sends, failure) ∷ failures rest

abbrev pub InBounds : ℕ → Type 0
InBounds d = (1 ≤ d) × (d ≤ 30)

abbrev pub count_failures : {P : Type 0} → List ((ℕ → Bool) × Signal P) → ℕ
count_failures [] = 0
count_failures ((_, failure) ∷ xs) = suc (count_failures xs)
count_failures ((_, subscribed) ∷ xs) = count_failures xs
count_failures ((_, received b p) ∷ xs) = count_failures xs

length-one_more :
    (ds : List ℕ) (d n total : ℕ) → total ≡ length (ds ++ d ∷ []) + n → total ≡ length ds + suc n
length-one_more ds d n total e = omega (arith, e, length-append ds (d ∷ []))

module _ {P : Type 0} where
  still_failed :
      (rest : List (ℕ → Bool)) (back : ℕ → Bool) (d : ℕ) (m : Manager P) (slept : List ℕ)
      → let s : Subscriber P = record { failed = true; delay = d; manager = m; slept = slept } in
        ((run (failures rest ++ (back, subscribed) ∷ []) s).manager
          ≡ broadcast back resync_required m)
        × ((run (failures rest ++ (back, subscribed) ∷ []) s).failed ≡ false)
        × ((run (failures rest ++ (back, subscribed) ∷ []) s).delay ≡ 1)
  unfolding run step
  still_failed [] back d m slept = (refl, refl, refl)
  still_failed (f ∷ rest) back d m slept =
      still_failed rest back (min (d * 2) 30) m (slept ++ d ∷ [])

  -- From a subscription that stands: however many attempts to reconnect fail, an outage is told to the clients twice: when it begins,
  -- and when the subscription stands again, each time to the sockets that take a message then. Then the delay is the first one once more.
  pub run_outage :
      (first : ℕ → Bool) (rest : List (ℕ → Bool)) (back : ℕ → Bool) (s : Subscriber P)
      → s.failed ≡ false
      → ((run (failures (first ∷ rest) ++ (back, subscribed) ∷ []) s).manager
          ≡ broadcast back resync_required (broadcast first resync_required s.manager))
        × ((run (failures (first ∷ rest) ++ (back, subscribed) ∷ []) s).failed ≡ false)
        × ((run (failures (first ∷ rest) ++ (back, subscribed) ∷ []) s).delay ≡ 1)
  unfolding run step
  run_outage first rest back s f = rw f (
      still_failed rest back (min (s.delay * 2) 30) (broadcast first resync_required s.manager)
        (s.slept ++ s.delay ∷ []))

  -- From a delay between 1 and 30 seconds: whatever signals come, the loop sleeps once for each failure, and
  -- between 1 and 30 seconds each time.
  pub run_delays :
      (xs : List ((ℕ → Bool) × Signal P)) (s : Subscriber P)
      → InBounds s.delay
      → All InBounds s.slept
      → (length (run xs s).slept ≡ length s.slept + count_failures xs)
        × All InBounds (run xs s).slept
  unfolding run step
  run_delays [] s d h = (omega arith, h)
  run_delays ((f, subscribed) ∷ xs) s d h =
      run_delays xs (step f subscribed s) (omega arith, omega arith) h
  run_delays ((f, received b p) ∷ xs) s d h = run_delays xs (step f (received b p) s) d h
  run_delays ((f, failure) ∷ xs) s d h =
      let (n, k) =
        run_delays xs (step f failure s) (omega arith, omega arith)
          (All-append InBounds s.slept (s.delay ∷ []) h (d, tt)) in
      (length-one_more s.slept s.delay (count_failures xs) _ n, k)
