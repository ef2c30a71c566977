-- ===== src/Jobs/Claim/Batch.antt =====
-- One batch of claims: it returns, shrinks what is left to claim by the rows that it read, and moves
-- each delivery forward.
use mad_devs_note_taker.Base.{
  ℕ, suc, ◌+◌, ◌*◌, ◌≤◌, ◌<◌, ◌≡◌, ◌≢◌, refl, sym, Bool, true, false, not, ◌&&◌, List, [], ◌∷◌,
  ◌++◌, arith, All, All-imp, select, length, ◌==◌, ==_refl, ltb, subst, ◌∙◌, All-both, All-append,
  some, none, ◌⊎◌, Some-append_left, Some-append_right, Bool-cases, inl, inr,
}
use mad_devs_note_taker.Base.Apart.{
  Apart, Apart-update_where, Member, All-at, Evolves, Evolves-refl, Evolves-trans,
  Member-update_where_of_false, Member-update_where_of_true,
}
use mad_devs_note_taker.Base.Tables.{update_where}
use mad_devs_note_taker.Base.Results.{ok}
use mad_devs_note_taker.Models.{Db, ReminderDelivery, DeliveryState, is_open}
use mad_devs_note_taker.Deliveries.{
  OtherId, Later, Later-refl, Later-trans, open-reaches, write-Evolves,
}
use mad_devs_note_taker.Session.{second, plus, end_of_time, uuid4}
use mad_devs_note_taker.Session.Rules.{Returns, Returns-bind, Returns-imp}
use mad_devs_note_taker.Reminders.{write_delivery}
use mad_devs_note_taker.Jobs.Claim.{
  is_claimable, miss_delivery, lease_delivery, claim_row, claim_rows,
}

module _ (w : ReminderDelivery → Bool) (f : ReminderDelivery → ReminderDelivery) where
  write_others :
      (d : ReminderDelivery) (ds : List ReminderDelivery)
      → All (OtherId d) ds
      → update_where (λ (x : ReminderDelivery). x.id == d.id) f ds ≡ ds
  write_others d [] h = refl
  write_others d (x ∷ xs) h =
      let e : (x.id == d.id) ≡ false = ground (arith, h.0) in rw (e, write_others d xs h.1)

  count_head :
      (d : ReminderDelivery) (ds : List ReminderDelivery)
      → All (OtherId d) ds
      → w d ≡ true
      → w (f d) ≡ false
      → length (select w (update_where (λ (x : ReminderDelivery). x.id == d.id) f (d ∷ ds))) + 1
        ≡ length (select w (d ∷ ds))
  count_head d ds h t u = rw (==_refl d.id, write_others d ds h, t, u) (omega arith)

  -- Writing one row so that it passes a test no more takes one off the count of those that do.
  pub count_write :
      (d : ReminderDelivery) (ds : List ReminderDelivery)
      → Apart OtherId ds
      → Member d ds
      → w d ≡ true
      → w (f d) ≡ false
      → length (select w (update_where (λ (x : ReminderDelivery). x.id == d.id) f ds)) + 1
        ≡ length (select w ds)
  count_write d [] h m t u = absurd m
  count_write d (x ∷ xs) h (inl e) t u =
      subst
        (λ z.
          length (select w (update_where (λ (y : ReminderDelivery). y.id == z.id) f (x ∷ xs))) + 1
          ≡ length (select w (x ∷ xs)))
        e (count_head x xs h.0 (rw (← e) at t) (rw (← e) at u))
  count_write d (x ∷ xs) h (inr m) t u =
      let n : (x.id == d.id) ≡ false = ground (arith, All-at (OtherId x) d xs h.0 m) in
      rw n (elim (Bool-cases (w x)) [
        | inl v ↦ rw v (omega (arith, count_write d xs h.1 m t u))
        | inr v ↦ rw v (count_write d xs h.1 m t u)
      ])

module _ (locked : ℕ → Bool) (now cutoff lease_seconds : ℕ) where
  -- A row that a scan at `now` would read.
  abbrev pub waits : ReminderDelivery → Bool
  waits d = is_claimable now d && not (locked d.id)

  abbrev pub waiting : Db → ℕ
  waiting s = length (select waits s.deliveries)

  -- The rows that a batch has still to write are in the table and wait.
  pub record Rows (rows : List ReminderDelivery) (s : Db) : Type 0 where
    pub ids : Apart OtherId s.deliveries
    pub apart : Apart OtherId rows
    pub there : All (λ (d : ReminderDelivery). Member d s.deliveries × (waits d ≡ true)) rows

  -- What one write leaves.
  record Wrote (d : ReminderDelivery) (f : ReminderDelivery → ReminderDelivery)
      (rows : List ReminderDelivery) (s s' : Db) : Type 0 where
    rest : Rows rows s'
    fewer : waiting s' + 1 ≡ waiting s
    evolves : Evolves Later s.deliveries s'.deliveries
    written : Member (f d) s'.deliveries
    frame : (e : ReminderDelivery) → e.id ≢ d.id → Member e s.deliveries → Member e s'.deliveries

  write_row :
      (f : ReminderDelivery → ReminderDelivery) (d : ReminderDelivery)
      (rows : List ReminderDelivery) (s : Db)
      → ((x : ReminderDelivery) → (f x).id ≡ x.id)
      → waits (f d) ≡ false
      → Later d (f d)
      → Rows (d ∷ rows) s
      → Returns (λ _ s'. Wrote d f rows s s') (write_delivery d.id f s)
  unfolding write_delivery
  write_row f d rows s same done step h = record {
    rest = record {
      ids =
          Apart-update_where OtherId _ f (λ x y k e. k (sym (same x) ∙ e))
            (λ x y k e. k (e ∙ same y)) s.deliveries h.ids;
      apart = h.apart.1;
      there = All-both _ _ _ (λ r k o. (kept r (λ e. o (sym e)) k.0, k.1)) rows h.there.1 h.apart.0;
    };
    fewer = count_write waits f d s.deliveries h.ids h.there.0.0 h.there.0.1 done;
    evolves = write-Evolves Later Later-refl f d s.deliveries h.ids h.there.0.0 step;
    written = Member-update_where_of_true _ f d s.deliveries h.there.0.0 (==_refl d.id);
    frame = λ e o m. kept e o m;
  }
    where
      kept :
          (e : ReminderDelivery)
          → e.id ≢ d.id
          → Member e s.deliveries
          → Member e (update_where (λ (x : ReminderDelivery). x.id == d.id) f s.deliveries)
      kept e o m = Member-update_where_of_false _ f e s.deliveries m (ground arith)

  -- A claim names a delivery that is claimed under its token until the lease ends, and that was due
  -- within its grace.
  pub record IsClaimed (claim : ℕ × ℕ) (e : ReminderDelivery) : Type 0 where
    pub same_id : e.id ≡ claim.0
    pub state : e.state ≡ DeliveryState.claimed
    pub token : e.claim_token ≡ some claim.1
    pub expires : e.claim_expires_at ≡ some (now + lease_seconds * second)
    pub in_grace : cutoff ≤ e.due_at
    pub due : e.due_at ≤ now

  -- A row that a batch read: missed when it is past its grace, else claimed under the token of one of its
  -- claims until the lease ends.
  abbrev pub Settled : List (ℕ × ℕ) → Db → ReminderDelivery → Type 0
  Settled claims s' d =
      ((d.due_at < cutoff)
        × Member
            (record d {
              state = DeliveryState.missed;
              claim_token = none;
              claim_expires_at = none;
              result_at = some now;
            })
            s'.deliveries)
      ⊎ ((cutoff ≤ d.due_at)
          × (token : ℕ) × Member (d.id, token) claims
          × Member
              (record d {
                state = DeliveryState.claimed;
                claim_token = some token;
                claim_expires_at = some (now + lease_seconds * second);
              })
              s'.deliveries)

  -- What a batch leaves, from the rows that it read.
  pub record Claimed (rows : List ReminderDelivery) (s : Db) (claims : List (ℕ × ℕ)) (s' : Db)
      : Type 0 where
    pub ids : Apart OtherId s'.deliveries
    pub fewer : waiting s' + length rows ≡ waiting s
    pub evolves : Evolves Later s.deliveries s'.deliveries
    pub claimed :
        All (λ (c : ℕ × ℕ). (e : ReminderDelivery) × IsClaimed c e × Member e s'.deliveries) claims
    pub settled : All (Settled claims s') rows
    pub frame :
        (e : ReminderDelivery)
        → All (OtherId e) rows
        → Member e s.deliveries
        → Member e s'.deliveries

  module _ (lease : 0 < lease_seconds) (room : now + lease_seconds * second < end_of_time) where
    -- The rows of one round, with what is still to come.
    Round : ReminderDelivery → List ReminderDelivery → Db → List (ℕ × ℕ) → Db → Type 0
    Round d rows s claims s' =
        Rows rows s' × Claimed (d ∷ []) s claims s' × All (λ (c : ℕ × ℕ). c.0 ≡ d.id) claims

    missed_row :
        (d : ReminderDelivery) (rows : List ReminderDelivery) (s s' : Db)
        → d.due_at < cutoff
        → Wrote d (miss_delivery now) rows s s'
        → Round d rows s [] s'
    unfolding Round
    missed_row d rows s s' l h = (
      h.rest,
      record {
        ids = h.rest.ids;
        fewer = h.fewer;
        evolves = h.evolves;
        claimed = tt;
        settled = (inl (l, h.written), tt);
        frame = λ e o m. h.frame e o.0 m;
      },
      tt,
    )

    leased_row :
        (token : ℕ) (d : ReminderDelivery) (rows : List ReminderDelivery) (s s' : Db)
        → cutoff ≤ d.due_at
        → d.due_at ≤ now
        → Wrote d (lease_delivery token (now + lease_seconds * second)) rows s s'
        → Round d rows s ((d.id, token) ∷ []) s'
    unfolding Round
    leased_row token d rows s s' g u h = (
      h.rest,
      record {
        ids = h.rest.ids;
        fewer = h.fewer;
        evolves = h.evolves;
        claimed = (
          (
            lease_delivery token (now + lease_seconds * second) d,
            record {
              same_id = refl;
              state = refl;
              token = refl;
              expires = refl;
              in_grace = g;
              due = u;
            },
            h.written,
          ),
          tt,
        );
        settled = (inr (g, token, inl refl, h.written), tt);
        frame = λ e o m. h.frame e o.0 m;
      },
      (refl, tt),
    )

    waits-open :
        (d : ReminderDelivery) → waits d ≡ true → (is_open d.state ≡ true) × (d.due_at ≤ now)
    unfolding is_claimable
    waits-open d h = ground arith

    miss-waits : (d : ReminderDelivery) → waits (miss_delivery now d) ≡ false
    unfolding is_claimable
    miss-waits d = refl

    lease-waits :
        (token : ℕ) (d : ReminderDelivery)
        → waits (lease_delivery token (now + lease_seconds * second) d) ≡ false
    unfolding is_claimable
    lease-waits token d = ground arith

    plus-returns : plus now (lease_seconds * second) ≡ ok (now + lease_seconds * second)
    unfolding plus
    plus-returns = ground arith

    claim_row-Round :
        (d : ReminderDelivery) (rows : List ReminderDelivery) (s : Db)
        → Rows (d ∷ rows) s
        → Returns (λ claims s'. Round d rows s claims s') (claim_row now cutoff lease_seconds d s)
    unfolding claim_row uuid4
    claim_row-Round d rows s h =
        let (o, due) = waits-open d h.there.0.1 in
        elim (Bool-cases (ltb d.due_at cutoff)) [
          | inl late ↦ rw late (
              Returns-bind (λ _ s'. Wrote d (miss_delivery now) rows s s')
                (λ claims s'. Round d rows s claims s') (write_delivery d.id (miss_delivery now)) _
                s
                (write_row (miss_delivery now) d rows s (λ _. refl) (miss-waits d)
                  (record {
                    same_id = refl;
                    same_rule = refl;
                    same_cycle = refl;
                    same_due = refl;
                    reached = open-reaches d.state _ o;
                  })
                  h)
                (λ _ s' k. missed_row d rows s s' (ground (arith, late)) k))
          | inr timely ↦
              rw (timely, plus-returns)
                (Returns-bind
                  (λ _ s'.
                    Wrote d (lease_delivery s.next_uuid (now + lease_seconds * second)) rows s s')
                  (λ claims s'. Round d rows s claims s')
                  (write_delivery d.id (lease_delivery s.next_uuid (now + lease_seconds * second)))
                  _ (record s { next_uuid = suc s.next_uuid })
                  (Returns-imp
                    (λ _ s'.
                      Wrote d (lease_delivery s.next_uuid (now + lease_seconds * second)) rows
                        (record s { next_uuid = suc s.next_uuid }) s')
                    _ _
                    (λ _ s' k. record {
                      rest = k.rest;
                      fewer = k.fewer;
                      evolves = k.evolves;
                      written = k.written;
                      frame = k.frame;
                    })
                    (write_row (lease_delivery s.next_uuid (now + lease_seconds * second)) d rows
                      (record s { next_uuid = suc s.next_uuid }) (λ _. refl)
                      (lease-waits s.next_uuid d)
                      (record {
                        same_id = refl;
                        same_rule = refl;
                        same_cycle = refl;
                        same_due = refl;
                        reached = open-reaches d.state _ o;
                      })
                      (record { ids = h.ids; apart = h.apart; there = h.there })))
                  (λ _ s' k. leased_row s.next_uuid d rows s s' (ground arith) due k))
        ]

    -- A settled row stays so while other rows are written and claims are added.
    Settled-later :
        (d : ReminderDelivery) (rows : List ReminderDelivery) (s' s'' : Db) (c cs : List (ℕ × ℕ))
        → All (OtherId d) rows
        → Claimed rows s' cs s''
        → Settled c s' d
        → Settled (c ++ cs) s'' d
    Settled-later d rows s' s'' c cs other k (inl (l, m)) = inl (l, k.frame _ other m)
    Settled-later d rows s' s'' c cs other k (inr (g, token, n, m)) =
        inr (g, token, Some-append_left _ c cs n, k.frame _ other m)

    -- A claim that is added in front leaves the rows settled.
    Settled-more :
        (s'' : Db) (c cs : List (ℕ × ℕ)) (d : ReminderDelivery)
        → Settled cs s'' d
        → Settled (c ++ cs) s'' d
    Settled-more s'' c cs d (inl k) = inl k
    Settled-more s'' c cs d (inr (g, token, n, m)) = inr (g, token, Some-append_right _ c cs n, m)

    join_rounds :
        (d : ReminderDelivery) (rows : List ReminderDelivery) (s s' s'' : Db) (c cs : List (ℕ × ℕ))
        → All (OtherId d) rows
        → Round d rows s c s'
        → Claimed rows s' cs s''
        → Claimed (d ∷ rows) s (c ++ cs) s''
    unfolding Round
    join_rounds d rows s s' s'' c cs other (rest, one, named) k = record {
      ids = k.ids;
      fewer = omega (arith, one.fewer, k.fewer);
      evolves = Evolves-trans Later-trans one.evolves k.evolves;
      claimed =
          All-append _ c cs
            (All-both _ _ _
              (λ p (e, q, m) n. (
                e,
                q,
                k.frame e
                    (All-imp (OtherId d) _ (λ x o r. o (sym n ∙ sym q.same_id ∙ r)) rows other) m,
              ))
              c one.claimed named)
            k.claimed;
      settled = (
        Settled-later d rows s' s'' c cs other k one.settled.0,
        All-imp _ _ (Settled-more s'' c cs) rows k.settled,
      );
      frame = λ e o m. k.frame e o.1 (one.frame e (o.0, tt) m);
    }

    pub claim_rows-Claimed :
        (rows : List ReminderDelivery) (s : Db)
        → Rows rows s
        → Returns
            (λ claims s'. Claimed rows s claims s')
            (claim_rows now cutoff lease_seconds rows s)
    unfolding claim_rows
    claim_rows-Claimed [] s h = record {
      ids = h.ids;
      fewer = omega arith;
      evolves = Evolves-refl Later-refl s.deliveries;
      claimed = tt;
      settled = tt;
      frame = λ e o m. m;
    }
    claim_rows-Claimed (d ∷ rows) s h =
        Returns-bind (λ c s'. Round d rows s c s') (λ claims s'. Claimed (d ∷ rows) s claims s')
          (claim_row now cutoff lease_seconds d) _ s (claim_row-Round d rows s h)
          (λ c s' k.
            Returns-bind (λ cs s''. Claimed rows s' cs s'')
              (λ claims s''. Claimed (d ∷ rows) s claims s'')
              (claim_rows now cutoff lease_seconds rows) _ s'
              (claim_rows-Claimed rows s' (rest_of d rows s c s' k))
              (λ cs s'' l. join_rounds d rows s s' s'' c cs h.apart.0 k l))
      where
        rest_of :
            (d : ReminderDelivery) (rows : List ReminderDelivery) (s : Db) (c : List (ℕ × ℕ))
            (s' : Db)
            → Round d rows s c s'
            → Rows rows s'
        rest_of d rows s c s' k = unfold Round in k.0
