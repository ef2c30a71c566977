-- ===== src/Jobs/Authorize/Sends.antt =====
-- When a delivery may send, and what it leaves behind.
use mad_devs_note_taker.Base.{
  ℕ, ◌+◌, ◌-◌, ◌*◌, ◌≤◌, ◌≡◌, refl, true, false, ◌||◌, not, ltb, ◌==◌, opt_eq, Option, some, none,
  List, [], ◌∷◌, select, arith, length, length-append, All, Bool-cases, inl, inr,
}
use mad_devs_note_taker.Base.Tables.{update_where}
use mad_devs_note_taker.Models.{
  Db, Text, Note, ReminderRule, ReminderDelivery, DeliveryState, is_claimed, UserSettings,
}
use mad_devs_note_taker.Session.{minus, second, one_or_none, uuid4}
use mad_devs_note_taker.Session.Rules.{IfReturns, IfReturns-read}
use mad_devs_note_taker.Email.{Email}
use mad_devs_note_taker.Reminders.{write_delivery, is_live}
use mad_devs_note_taker.Jobs.Authorize.{
  profile_id, Ids, is_stale, authorize, notify, check_delivery, start_attempt, recipient_of,
}

module _ (claim now grace_seconds : ℕ) (rule : ReminderRule) (note : Note)
    (delivery : ReminderDelivery) (s : Db) where
  -- An email goes out for a claimed delivery of the rule's current cycle, due within its grace.
  pub record IsSent (email : Email) (s' : Db) : Type 0 where
    pub claimed : delivery.state ≡ DeliveryState.claimed
    pub token : delivery.claim_token ≡ some claim
    pub enabled : rule.enabled ≡ true
    pub current : rule.current_cycle_number ≡ delivery.cycle_number
    pub live : is_live note ≡ true
    pub due : delivery.due_at ≤ now
    pub in_grace : now ≤ delivery.due_at + grace_seconds * second
    pub message : email.message_id ≡ (delivery.id, delivery.cycle_number)
    pub one_notification : length s'.notifications ≡ length s.notifications + 1
    pub one_event : length s'.outbox ≡ length s.outbox + 1
    pub started :
        All
          (λ (d : ReminderDelivery). d.id ≡ delivery.id → d.state ≡ DeliveryState.attempt_started)
          s'.deliveries

  abbrev pub IsChecked : Option Email → Db → Type 0
  IsChecked none s' = (s'.notifications ≡ s.notifications) × (s'.outbox ≡ s.outbox)
  IsChecked (some email) s' = IsSent email s'

started_rows :
    (id now : ℕ) (recipient : Text) (note : Note) (ds : List ReminderDelivery)
    → All
        (λ (d : ReminderDelivery). d.id ≡ id → d.state ≡ DeliveryState.attempt_started)
        (update_where (λ (d : ReminderDelivery). d.id == id) (start_attempt now recipient note) ds)
started_rows id now recipient note [] = tt
started_rows id now recipient note (d ∷ ds) = elim (Bool-cases (d.id == id)) [
  | inl same ↦ rw same (λ e. refl, started_rows id now recipient note ds)
  | inr other ↦
      rw other ((λ e. absurd (ground (arith, e, other))), started_rows id now recipient note ds)
]

opt_eq→eq : (o : Option ℕ) (k : ℕ) → opt_eq o k ≡ true → o ≡ some k
opt_eq→eq none k h = absurd cc
opt_eq→eq (some a) k h = ground (arith)

is_claimed→eq : (d : DeliveryState) → is_claimed d ≡ true → d ≡ DeliveryState.claimed
is_claimed→eq DeliveryState.claimed h = refl
is_claimed→eq DeliveryState.pending h = absurd cc
is_claimed→eq DeliveryState.attempt_started h = absurd cc
is_claimed→eq DeliveryState.sent h = absurd cc
is_claimed→eq DeliveryState.failed h = absurd cc
is_claimed→eq DeliveryState.unknown h = absurd cc
is_claimed→eq DeliveryState.missed h = absurd cc
is_claimed→eq DeliveryState.cancelled h = absurd cc

module _ (claim now grace_seconds : ℕ) (default_email : Text) (ids : Ids) (rule : ReminderRule)
    (note : Note) (delivery : ReminderDelivery) (s : Db) where
  -- What the checks have established when an attempt starts.
  record Passed : Type 0 where
    state : is_claimed delivery.state ≡ true
    named : opt_eq delivery.claim_token claim ≡ true
    fresh : is_stale rule note delivery ≡ false
    late : ltb now delivery.due_at ≡ false
    timely : ltb delivery.due_at (now - grace_seconds * second) ≡ false

  authorize-IsSent :
      Passed
      → IfReturns
          (IsChecked claim now grace_seconds rule note delivery s)
          (authorize now default_email ids note delivery s)
  unfolding authorize notify write_delivery uuid4
  authorize-IsSent h =
      IfReturns-read (IsChecked claim now grace_seconds rule note delivery s)
        (one_or_none (select (λ (u : UserSettings). u.id == profile_id) s.user_settings)) _ s
        (λ settings q. record {
          claimed = is_claimed→eq delivery.state h.state;
          token = opt_eq→eq delivery.claim_token claim h.named;
          enabled = ground (arith, h.fresh);
          current = ground (arith, h.fresh);
          live = ground (arith, h.fresh);
          due = ground (arith, h.late);
          in_grace = ground (arith, h.timely);
          message = refl;
          one_notification = length-append s.notifications _;
          one_event = length-append s.outbox _;
          started =
              started_rows delivery.id now (recipient_of default_email settings) note s.deliveries;
        })

  -- Where the checks of a delivery let an email go, the delivery is claimed under the caller's token, its
  -- rule is enabled and at the delivery's cycle, its note is live, and it is due within its grace; then it
  -- is marked as attempted, with one new notification and one new event. Else neither is added.
  pub check_delivery-IsChecked :
      IfReturns
        (IsChecked claim now grace_seconds rule note delivery s)
        (check_delivery claim now grace_seconds default_email ids note rule delivery s)
  unfolding check_delivery write_delivery minus
  check_delivery-IsChecked =
      elim (Bool-cases
        (not (is_claimed delivery.state) || not (opt_eq delivery.claim_token claim))) [
          | inl e ↦ rw e (refl, refl)
          | inr a ↦ elim (Bool-cases (is_stale rule note delivery)) [
            | inl e ↦ rw (a, e) (refl, refl)
            | inr b ↦ elim (Bool-cases (ltb now delivery.due_at)) [
              | inl e ↦ rw (a, b, e) (refl, refl)
              | inr c ↦ elim (Bool-cases (ltb now (grace_seconds * second))) [
                | inl e ↦ rw (a, b, c, e) tt
                | inr d ↦ elim (Bool-cases (ltb delivery.due_at (now - grace_seconds * second))) [
                  | inl e ↦ rw (a, b, c, d, e) (refl, refl)
                  | inr e ↦
                      rw (a, b, c, d, e)
                        (authorize-IsSent (record {
                          state = ground (arith, a);
                          named = ground (arith, a);
                          fresh = b;
                          late = c;
                          timely = e;
                        }))
                ]
              ]
            ]
          ]
        ]
