-- ===== src/System/Handlers.antt =====
-- Every handler of the profile, of tags and of notes keeps the constraints.
use mad_devs_note_taker.Base.{ℕ, Option, none, some}
use mad_devs_note_taker.Models.{Text, Note}
use mad_devs_note_taker.Recurrence.{Zones}
use mad_devs_note_taker.Schemas.{
  TagCreate, TagUpdate, SettingsUpdate, NoteFields, NoteUpdate, RestoreRequest,
}
use mad_devs_note_taker.Api.Profile.{
  Defaults, update_profile_settings, profile_settings, or_default,
}
use mad_devs_note_taker.Api.Tags.{create_tag, update_tag, delete_tag, find_tag}
use mad_devs_note_taker.Api.NoteHandlers.{
  create_note, update_note, delete_note, restore_single, locked_note_and_series, trash_note,
  untrash_note, edit_note, spread_edit, check_in_place,
}
use mad_devs_note_taker.System.Keeps.{Keeps-raise_if, keeps_rules, Keeps}
use mad_devs_note_taker.System.Steps.{note_rules, Keeps-add_event}

Keeps-profile_settings : (defaults : Defaults) → Keeps (profile_settings defaults)
unfolding profile_settings
Keeps-profile_settings defaults = search (keeps_rules, or_default-Keeps)
  where
    or_default-Keeps : (o : Option _) → Keeps (or_default defaults o)
    or_default-Keeps none = search (keeps_rules)
    or_default-Keeps (some u) = search (keeps_rules)

pub Keeps-update_profile_settings :
    (defaults : Defaults) (zones : Zones) (p : SettingsUpdate)
    → Keeps (update_profile_settings defaults zones p)
unfolding update_profile_settings
Keeps-update_profile_settings defaults zones p =
    search (keeps_rules, Keeps-profile_settings, Keeps-add_event) depth 30

pub Keeps-create_tag : (casefold : Text → Text) (p : TagCreate) → Keeps (create_tag casefold p)
unfolding create_tag
Keeps-create_tag casefold p = search (keeps_rules, Keeps-add_event) depth 30

pub Keeps-update_tag :
    (casefold : Text → Text) (id : ℕ) (p : TagUpdate) → Keeps (update_tag casefold id p)
unfolding update_tag find_tag
Keeps-update_tag casefold id p = search (keeps_rules, Keeps-add_event) depth 30

pub Keeps-delete_tag : (id version : ℕ) → Keeps (delete_tag id version)
unfolding delete_tag find_tag
Keeps-delete_tag id version = search (keeps_rules, Keeps-add_event) depth 30

pub Keeps-create_note : (p : NoteFields) → Keeps (create_note p)
unfolding create_note
Keeps-create_note p = search (note_rules) depth 30

Keeps-locked_note_and_series :
    (id : ℕ) (expected : Option ℕ) → Keeps (locked_note_and_series id expected)
unfolding locked_note_and_series
Keeps-locked_note_and_series id expected = search (note_rules)

Keeps-edit_note : (note : Note) (p : NoteUpdate) → Keeps (edit_note note p)
unfolding edit_note spread_edit
Keeps-edit_note note p = search (note_rules) depth 30

Keeps-check_in_place : (note : Note) → Keeps (check_in_place note)
unfolding check_in_place
Keeps-check_in_place note = record { at = λ s h. (Keeps-raise_if _ _).at s h }

pub Keeps-update_note : (id : ℕ) (p : NoteUpdate) → Keeps (update_note id p)
unfolding update_note
Keeps-update_note id p =
    search (note_rules, Keeps-locked_note_and_series, Keeps-check_in_place, Keeps-edit_note) depth
      20

Keeps-trash_note : (note : Note) → Keeps (trash_note note)
unfolding trash_note
Keeps-trash_note note = search (note_rules) depth 30

pub Keeps-delete_note :
    (id version : ℕ) (expected : Option ℕ) → Keeps (delete_note id version expected)
unfolding delete_note
Keeps-delete_note id version expected =
    search (note_rules, Keeps-locked_note_and_series, Keeps-trash_note) depth 20

Keeps-untrash_note : (note : Note) → Keeps (untrash_note note)
unfolding untrash_note
Keeps-untrash_note note = search (note_rules) depth 30

pub Keeps-restore_single : (id : ℕ) (p : RestoreRequest) → Keeps (restore_single id p)
unfolding restore_single
Keeps-restore_single id p =
    search (note_rules, Keeps-locked_note_and_series, Keeps-untrash_note) depth 20
