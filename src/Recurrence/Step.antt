-- ===== src/Recurrence/Step.antt =====
-- What one move of the cursor does to the date.
use mad_devs_note_taker.Base.{
  ℕ, zero, suc, ◌+◌, ◌≤◌, ◌<◌, ◌≡◌, ◌⊎◌, inl, inr, refl, some, Option-cases, arith, ◌*◌, ◌-◌, sym,
  ◌∙◌, Bool-cases, leb, leb→le, leb-false→lt,
}
use mad_devs_note_taker.Base.Results.{ok}
use mad_devs_note_taker.Calendar.{
  LocalDate, IsDate, key, days_in_month, days_in_month_bounds, next_day, add_days,
}
use mad_devs_note_taker.Recurrence.{Frequency, daily, weekly, monthly, next_month, advance}

pub next_day-later :
    (d : LocalDate) {e : LocalDate}
    → IsDate d
    → next_day d ≡ some e
    → IsDate e × (key d + 1 ≤ key e)
unfolding next_day
next_day-later d {e} v h = ground (
  arith,
  days_in_month_bounds d.year d.month,
  days_in_month_bounds d.year (d.month + 1),
  days_in_month_bounds (d.year + 1) 1,
)

-- No date lies between a day and the day after.
pub next_day-next :
    (d x : LocalDate) {e : LocalDate}
    → IsDate d
    → IsDate x
    → next_day d ≡ some e
    → key d + 1 ≤ key x
    → key e ≤ key x
unfolding next_day
next_day-next d x {e} v u h l = ground (arith, days_in_month_bounds x.year x.month)

pub next_month-later :
    (d : LocalDate) (w : ℕ) {e : LocalDate}
    → IsDate d
    → 1 ≤ w
    → next_month d w ≡ some e
    → IsDate e × (key d + 1 ≤ key e)
unfolding next_month
next_month-later d w {e} v h p = ground (
  arith,
  days_in_month_bounds d.year d.month,
  days_in_month_bounds d.year (d.month + 1),
  days_in_month_bounds (d.year + 1) 1,
)

pub add_days-later :
    (n : ℕ) (d : LocalDate) {e : LocalDate}
    → IsDate d
    → add_days n d ≡ some e
    → IsDate e × (key d + n ≤ key e)
unfolding add_days
add_days-later zero d {e} v h = ground arith
add_days-later (suc n) d {e} v h = elim (Option-cases (next_day d)) [
  | inl last ↦ ground arith
  | inr (m, p) ↦
      let (vm, lm) = next_day-later d v p in
      let (ve, le) = add_days-later n m {e = e} vm (rw p at h) in (ve, omega arith)
]

add_one-next :
    (d x : LocalDate) {e : LocalDate}
    → IsDate d
    → IsDate x
    → add_days 1 d ≡ some e
    → key d + 1 ≤ key x
    → key e ≤ key x
unfolding add_days
add_one-next d x {e} v u h l = ground (arith, next_day-next d x {e = e} v u)

-- A move goes to a valid date, at least one day later.
pub advance-later :
    (f : Frequency) (w : ℕ) (c : LocalDate) {e : LocalDate}
    → IsDate c
    → 1 ≤ w
    → advance f w c ≡ ok e
    → IsDate e × (key c + 1 ≤ key e)
unfolding advance
advance-later daily w c {e} v h p = add_days-later 1 c v (ground arith)
advance-later weekly w c {e} v h p =
    let (ve, le) = add_days-later 7 c {e = e} v (ground arith) in (ve, omega arith)
advance-later monthly w c {e} v h p = next_month-later c w v h (ground arith)

-- Moves by days add up.
add_days-add :
    (m n : ℕ) (d : LocalDate) {e : LocalDate}
    → add_days m d ≡ some e
    → add_days (m + n) d ≡ add_days n e
unfolding add_days
add_days-add zero n d {e} h =
    let q : 0 + n ≡ n = omega arith in let same : d ≡ e = ground (arith, h) in rw (q, same) refl
add_days-add (suc m) n d {e} h =
    let q : suc m + n ≡ suc (m + n) = omega arith in
    rw q (elim (Option-cases (next_day d)) [
      | inl last ↦ absurd (ground (arith, last, h))
      | inr (f, p) ↦ rw p (add_days-add m n f {e = e} (rw p at h))
    ])

-- A cursor of a weekly series: whole weeks after the start.
abbrev pub OnWeek : Frequency → LocalDate → LocalDate → Type 0
OnWeek weekly start c = (weeks : ℕ) × (add_days (weeks * 7) start ≡ some c)
OnWeek _ start c = Unit

pub starts_week : (start : LocalDate) (f : Frequency) → OnWeek f start start
unfolding add_days
starts_week start weekly = (0, refl)
starts_week start _ = tt

pub advance-OnWeek :
    (f : Frequency) (w : ℕ) (start c : LocalDate) {e : LocalDate}
    → OnWeek f start c
    → advance f w c ≡ ok e
    → OnWeek f start e
unfolding advance
advance-OnWeek daily w start c {e} h p = tt
advance-OnWeek monthly w start c {e} h p = tt
advance-OnWeek weekly w start c {e} (weeks, h) p =
    let q : suc weeks * 7 ≡ weeks * 7 + 7 = omega arith in
    (suc weeks, rw (q, add_days-add (weeks * 7) 7 start {e = c} h) (ground (arith, p)))

-- A cursor of a monthly series: on the wanted day, or in a month that lacks it.
abbrev pub OnTrack : Frequency → ℕ → LocalDate → Type 0
OnTrack monthly w c = (c.day ≡ w) ⊎ (days_in_month c.year c.month < w)
OnTrack _ w c = Unit

pub next_month-next :
    (c x : LocalDate) (w : ℕ) {e : LocalDate}
    → IsDate c
    → IsDate x
    → x.day ≡ w
    → OnTrack monthly w c
    → next_month c w ≡ some e
    → key c + 1 ≤ key x
    → key e ≤ key x
unfolding next_month
next_month-next c x w {e} v u d t h l = ground (
  arith,
  days_in_month_bounds c.year c.month,
  days_in_month_bounds x.year x.month,
  days_in_month_bounds c.year (c.month + 1),
  days_in_month_bounds (c.year + 1) 1,
)

pub advance-OnTrack :
    (f : Frequency) (w : ℕ) (c : LocalDate) {e : LocalDate} → advance f w c ≡ ok e → OnTrack f w e
unfolding advance next_month
advance-OnTrack daily w c {e} p = tt
advance-OnTrack weekly w c {e} p = tt
advance-OnTrack monthly w c {e} p = ground arith

-- Whole weeks after the start, the next one is no later than any that is after this one.
add_week-next :
    (start c x : LocalDate) (i j : ℕ) {e : LocalDate}
    → IsDate c
    → IsDate x
    → add_days (i * 7) start ≡ some c
    → add_days (j * 7) start ≡ some x
    → add_days 7 c ≡ some e
    → key c + 1 ≤ key x
    → key e ≤ key x
add_week-next start c x i j {e} vc vx hc hx he later = elim (le-cases j i) [
  | inl (back, p) ↦
      let q : i * 7 ≡ j * 7 + back * 7 = omega (arith, p) in
      let r : add_days (back * 7) x ≡ some c =
        sym (add_days-add (j * 7) (back * 7) start {e = x} hx) ∙ rw (← q) hc in
      absurd (omega (arith, (add_days-later (back * 7) x {e = c} vx r).1, later))
  | inr (on, p) ↦
      let q : j * 7 ≡ i * 7 + 7 + on * 7 = omega (arith, p) in
      let r : add_days (on * 7) e ≡ some x =
        sym (
          add_days-add (i * 7 + 7) (on * 7) start {e = e}
            (add_days-add (i * 7) 7 start {e = c} hc ∙ he))
        ∙ rw (← q) hx in
      omega (arith, (add_days-later (on * 7) e {e = x} (add_days-later 7 c {e = e} vc he).0 r).1)
]
  where
    le-cases : (j i : ℕ) → ((d : ℕ) × (i ≡ j + d)) ⊎ ((d : ℕ) × (j ≡ i + 1 + d))
    le-cases j i = elim (Bool-cases (leb j i)) [
      | inl t ↦ inl (i - j, omega (arith, leb→le j i t))
      | inr f ↦ inr (j - i - 1, omega (arith, leb-false→lt j i f))
    ]

-- No scheduled date lies between the cursor and its next place.
pub advance-next :
    (f : Frequency) (w : ℕ) (c x : LocalDate) {e : LocalDate}
    → (start : LocalDate) → OnWeek f start c
    → OnWeek f start x
    → IsDate c
    → IsDate x
    → (f ≡ monthly → x.day ≡ w)
    → OnTrack f w c
    → advance f w c ≡ ok e
    → key c + 1 ≤ key x
    → key e ≤ key x
unfolding advance
advance-next daily w c x {e} start wc wx v u d t h l = add_one-next c x v u (ground arith) l
advance-next weekly w c x {e} start (i, hc) (j, hx) v u d t h l =
    add_week-next start c x i j v u hc hx (ground (arith, h)) l
advance-next monthly w c x {e} start wc wx v u d t h l =
    next_month-next c x w v u (d refl) t (ground arith) l
