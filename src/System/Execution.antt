-- ===== src/System/Execution.antt =====
-- The system's response to requests: each is one transaction, which commits, or rolls back when it raises
-- or when the data base refuses its rows.
use mad_devs_note_taker.Base.{
  ℕ, Bool, if◌then◌else◌, ◌&&◌, all, Option, some, none, List, [], ◌∷◌, ◌++◌,
}
use mad_devs_note_taker.Base.Results.{ok, err}
use mad_devs_note_taker.Models.{Db, Text}
use mad_devs_note_taker.Recurrence.{Zones}
use mad_devs_note_taker.Email.{Email}
use mad_devs_note_taker.Session.{M, ◌>>◌, pure}
use mad_devs_note_taker.Storage.{is_storable, is_storable_event}
use mad_devs_note_taker.Api.Profile.{Defaults, update_profile_settings}
use mad_devs_note_taker.Api.Tags.{create_tag, update_tag, delete_tag}
use mad_devs_note_taker.Api.NoteHandlers.{create_note, update_note, delete_note}
use mad_devs_note_taker.Api.Series.Create.{create_series}
use mad_devs_note_taker.Api.Series.Split.{split_series}
use mad_devs_note_taker.Api.Series.Trash.{trash_series_portion, restore_trash_action, restore_note}
use mad_devs_note_taker.Api.Series.Restore.{restore_series_portion}
use mad_devs_note_taker.Jobs.Claim.{claim_due_batch}
use mad_devs_note_taker.Jobs.Authorize.{authorize_delivery}
use mad_devs_note_taker.Jobs.Deliver.{record_outcome, classify_unknown, unknown_of, error_of}
use mad_devs_note_taker.Jobs.Outbox.{publish_batch}
use mad_devs_note_taker.Jobs.Maintenance.{maintain, purge_trash}
use mad_devs_note_taker.System.Requests.{Request}

-- What the process is configured with, and the library functions that it calls.
pub record Settings : Type 0 where
  pub defaults : Defaults
  pub max_series_occurrences : ℕ
  pub zones : Zones
  pub lower : Text → Text
  pub casefold : Text → Text

-- A transaction that sends no message.
abbrev pub silent : {A : Type 0} → M A → M (Option Email)
silent m = m >> pure none

unfoldable pub run : Settings → Request → M (Option Email)
run w (Request.update_profile_settings p) = silent (update_profile_settings w.defaults w.zones p)
run w (Request.create_tag p) = silent (create_tag w.casefold p)
run w (Request.update_tag id p) = silent (update_tag w.casefold id p)
run w (Request.delete_tag id version) = silent (delete_tag id version)
run w (Request.create_note p) = silent (create_note p)
run w (Request.update_note id p) = silent (update_note id p)
run w (Request.delete_note id version expected) = silent (delete_note id version expected)
run w (Request.restore_note id p) = silent (restore_note id p)
run w (Request.create_series p) = silent (create_series w.zones w.lower w.max_series_occurrences p)
run w (Request.split_series id p) =
    silent (split_series w.zones w.lower w.max_series_occurrences id p)
run w (Request.trash_series_portion id p) = silent (trash_series_portion id p)
run w (Request.restore_trash_action id version) = silent (restore_trash_action w.lower id version)
run w (Request.restore_series_portion id p) = silent (restore_series_portion w.lower id p)
run w (Request.claim_due_batch locked now grace lease limit) =
    silent (claim_due_batch locked now grace lease limit)
run w (Request.authorize_delivery id token now grace) =
    authorize_delivery id token now grace w.defaults.email
run w (Request.record_outcome id email outcome) =
    silent (record_outcome id (unknown_of email outcome) (error_of email outcome))
run w (Request.classify_unknown locked now older limit) =
    silent (classify_unknown locked now older limit)
run w (Request.publish_batch locked publish now limit) =
    silent (publish_batch locked publish now limit)
run w (Request.maintain locked now) = silent (maintain locked now)
run w (Request.purge_trash now retention_days limit) = silent (purge_trash now retention_days limit)

-- The tables, and the messages that were handed to the sender.
pub record System : Type 0 where
  pub db : Db
  pub sent : List Email

abbrev pub listed : Option Email → List Email
listed none = []
listed (some e) = e ∷ []

-- Whether the check constraints hold of all rows.
abbrev pub accepts : Db → Bool
accepts s = all is_storable s.deliveries && all is_storable_event s.outbox

unfoldable pub exec : Settings → Request → System → System
exec w r sys = elim (run w r sys.db) [
  | err e ↦ sys
  | ok (o, t) ↦ if accepts t then record { db = t; sent = sys.sent ++ listed o } else sys
]

unfoldable pub replay : Settings → List Request → System → System
replay w [] sys = sys
replay w (r ∷ rs) sys = replay w rs (exec w r sys)
