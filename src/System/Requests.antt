-- ===== src/System/Requests.antt =====
-- What clients and schedulers ask of the system: the handlers of backend/app/api/router.py that write, and
-- the transactions of backend/app/jobs.
use mad_devs_note_taker.Base.{ℕ, Bool, Option}
use mad_devs_note_taker.Models.{Payload}
use mad_devs_note_taker.Email.{Email, Outcome}
use mad_devs_note_taker.Schemas.{
  TagCreate, TagUpdate, SettingsUpdate, NoteFields, NoteUpdate, RestoreRequest, SeriesFields,
  SeriesSplit, SeriesPortionRequest,
}

-- The transactions that write. A delivery is two: its authorization, after which the message goes to the
-- sender, and the record of the sender's outcome.
pub data Request : Type 0 where
  update_profile_settings : SettingsUpdate → Request
  create_tag : TagCreate → Request
  update_tag : ℕ → TagUpdate → Request
  delete_tag : ℕ → ℕ → Request
  create_note : NoteFields → Request
  update_note : ℕ → NoteUpdate → Request
  delete_note : ℕ → ℕ → Option ℕ → Request
  restore_note : ℕ → RestoreRequest → Request
  create_series : SeriesFields → Request
  split_series : ℕ → SeriesSplit → Request
  trash_series_portion : ℕ → SeriesPortionRequest → Request
  restore_trash_action : ℕ → ℕ → Request
  restore_series_portion : ℕ → SeriesPortionRequest → Request
  claim_due_batch : (ℕ → Bool) → ℕ → ℕ → ℕ → ℕ → Request
  authorize_delivery : ℕ → ℕ → ℕ → ℕ → Request
  record_outcome : ℕ → Email → Outcome → Request
  classify_unknown : (ℕ → Bool) → ℕ → ℕ → ℕ → Request
  publish_batch : (ℕ → Bool) → (Payload → Bool) → ℕ → ℕ → Request
  maintain : (ℕ → Bool) → ℕ → Request
  purge_trash : ℕ → ℕ → ℕ → Request
