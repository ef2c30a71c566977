-- ===== src/Reminders/Tests.antt =====
-- Reconciling the sample note with two offsets.
use mad_devs_note_taker.Base.{◌*◌, true, [], ◌∷◌, arith}
use mad_devs_note_taker.Base.Apart.{Evolves}
use mad_devs_note_taker.Models.{Db}
use mad_devs_note_taker.Session.{day}
use mad_devs_note_taker.Session.Rules.{Returns}
use mad_devs_note_taker.Fixtures.{sample_note, sample_db}
use mad_devs_note_taker.Reminders.{reconcile_reminders}
use mad_devs_note_taker.Reminders.Invariant.{IsKeyed}
use mad_devs_note_taker.Reminders.Round.{Moved}
use mad_devs_note_taker.Reminders.History.{IsReady, reconcile_history}

sample-IsReady : IsReady (15 ∷ 30 ∷ []) sample_db
sample-IsReady = record {
  keyed = record { ids = (tt, tt); slots = (tt, tt); drawn = ((omega arith, omega arith), tt) };
  apart = (tt, tt);
  short = (omega arith, tt);
  drawn = (omega arith, tt);
  not_ahead = ((λ e. omega arith, tt), tt);
  wanted = (omega arith, (omega arith, tt));
}

reconcile_history_example :
    Returns
      (λ _ (s : Db).
        IsKeyed s.next_uuid s.deliveries
        × Evolves (Moved sample_note sample_db) sample_db.deliveries s.deliveries)
      (reconcile_reminders sample_note (15 ∷ 30 ∷ []) true (9 * day) sample_db)
reconcile_history_example =
    reconcile_history sample_note sample_db (omega arith) (15 ∷ 30 ∷ []) true (9 * day)
      sample-IsReady
