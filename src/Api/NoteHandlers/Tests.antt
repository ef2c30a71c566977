-- ===== src/Api/NoteHandlers/Tests.antt =====
-- An edit of the one note of the table.
use mad_devs_note_taker.Base.{◌*◌, true, false, none, [], ◌∷◌}
use mad_devs_note_taker.Base.Text.{codes}
use mad_devs_note_taker.Models.{Note}
use mad_devs_note_taker.Schemas.{NoteUpdate}
use mad_devs_note_taker.Session.{day}
use mad_devs_note_taker.Session.Rules.{IfReturns}
use mad_devs_note_taker.Fixtures.{sample_db}
use mad_devs_note_taker.Api.NoteHandlers.{update_note}
use mad_devs_note_taker.Api.NoteHandlers.Editing.{IsSeen, IsEdited, update_note-IsEdited}

abbrev new_title : NoteUpdate
new_title = record {
  fields = record {
    title = codes " shop ";
    body = [];
    starts_at = 12 * day;
    active = true;
    tag_ids = [];
    reminder_offsets_minutes = 30 ∷ [];
  };
  starts_in_utc = false;
  expected_version = 1;
  expected_series_version = none;
}

update_note-IsEdited_example :
    IfReturns
      (λ r t.
        (note : Note) × IsSeen 1 new_title sample_db note × IsEdited new_title sample_db note r t)
      (update_note 1 new_title sample_db)
update_note-IsEdited_example = update_note-IsEdited 1 new_title sample_db
