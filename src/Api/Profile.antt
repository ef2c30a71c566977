-- ===== src/Api/Profile.antt =====
-- The settings of the single profile: `_settings`, `get_profile_settings` and `update_profile_settings`.
use mad_devs_note_taker.Base.{Bool, not, ◌==◌, Option, some, none, [], ◌∷◌, ◌++◌, select, String}
use mad_devs_note_taker.Base.Tables.{update_where}
use mad_devs_note_taker.Base.Text.{strip}
use mad_devs_note_taker.Models.{Db, Text, next_version, UserSettings}
use mad_devs_note_taker.Schemas.{SettingsResponse, SettingsUpdate}
use mad_devs_note_taker.Session.{
  M, ◌>>=◌, ◌>>◌, pure, raise_if, lift, gets, modify, api_error, one_or_none, utcnow, Current,
}
use mad_devs_note_taker.Recurrence.{Zones}
use mad_devs_note_taker.Notes.{add_event}
use mad_devs_note_taker.Api.Validation.{validate_email, validate_timezone}
use mad_devs_note_taker.Jobs.Authorize.{profile_id}

-- The configuration's `app_default_email` and `app_default_timezone`.
pub record Defaults : Type 0 where
  pub email : Text
  pub timezone : String

abbrev pub settings_response : UserSettings → SettingsResponse
settings_response u = record { email = u.email; timezone = u.timezone; version = u.version }

abbrev pub is_profile : UserSettings → Bool
is_profile u = u.id == profile_id

abbrev pub default_settings : Defaults → Db → UserSettings
default_settings defaults s = record {
  id = profile_id;
  email = defaults.email;
  timezone = defaults.timezone;
  updated_at = s.server_now;
  version = 1;
}

abbrev pub or_default : Defaults → Option UserSettings → M UserSettings
or_default defaults (some u) = pure u
or_default defaults none = do
  row ← gets (default_settings defaults)
  modify (λ s. record s { user_settings = s.user_settings ++ row ∷ [] })
  pure row

-- `_settings`: the row, made from the defaults when it is missing.
unfoldable pub profile_settings : Defaults → M UserSettings
profile_settings defaults = do
  row ← λ s. lift (one_or_none (select is_profile s.user_settings)) s
  or_default defaults row

unfoldable pub get_profile_settings : Defaults → M SettingsResponse
unfolding profile_settings
get_profile_settings defaults = do row ← profile_settings defaults; pure (settings_response row)

unfoldable pub update_profile_settings : Defaults → Zones → SettingsUpdate → M SettingsResponse
unfolding profile_settings
update_profile_settings defaults zones payload = do
  row ← profile_settings defaults
  raise_if (not (row.version == payload.expected_version)) (
      api_error 409 "version_conflict" "Settings changed" []
        (some (Current.settings (settings_response row))))
  email ← lift (validate_email (strip payload.email))
  timezone ← lift (validate_timezone zones payload.timezone)
  now ← utcnow
  let updated = record row {
    email = email;
    timezone = timezone;
    updated_at = now;
    version = next_version row.version;
  }
  modify (λ s. record s { user_settings = update_where is_profile (λ _. updated) s.user_settings })
  add_event "settings.updated" updated.id updated.version none
  pure (settings_response updated)
