-- ===== src/Schemas.antt =====
-- backend/app/api/schemas.py: the requests that the handlers read and the responses they build, with
-- the validators that pydantic runs on a request.
--
-- A request's fields are those that passed pydantic's own type checks.
use mad_devs_note_taker.Base.{
  ℕ, Bool, not, Option, some, none, List, [], ◌∷◌, String, ◌==◌, length, if◌then◌else◌, contains,
}
use mad_devs_note_taker.Models.{Text}
use mad_devs_note_taker.Calendar.{LocalDate, LocalDateTime}
use mad_devs_note_taker.Recurrence.{Frequency}
use mad_devs_note_taker.Base.Results.{Result, ok, err}

pub record TagResponse : Type 0 where
  pub id : ℕ
  pub name : Text
  pub color : Text
  pub version : ℕ

pub record TagCreate : Type 0 where
  pub name : Text
  pub color : Text

pub record TagUpdate : Type 0 where
  pub name : Text
  pub color : Text
  pub expected_version : ℕ

pub record SettingsResponse : Type 0 where
  pub email : Text
  pub timezone : String
  pub version : ℕ

pub record SettingsUpdate : Type 0 where
  pub email : Text
  pub timezone : String
  pub expected_version : ℕ

pub record NoteFields : Type 0 where
  pub title : Text
  pub body : Text
  pub starts_at : ℕ
  pub active : Bool
  pub tag_ids : List ℕ
  pub reminder_offsets_minutes : List ℕ

-- `starts_in_utc`: whether `starts_at` came with the offset zero.
pub record NoteUpdate : Type 0 where
  pub fields : NoteFields
  pub starts_in_utc : Bool
  pub expected_version : ℕ
  pub expected_series_version : Option ℕ

pub record RestoreRequest : Type 0 where
  pub expected_version : ℕ
  pub expected_series_version : Option ℕ

pub record NoteResponse : Type 0 where
  pub id : ℕ
  pub title : Text
  pub body : Text
  pub starts_at : ℕ
  pub active : Bool
  pub tags : List TagResponse
  pub reminder_offsets_minutes : List ℕ
  pub version : ℕ
  pub updated_at : ℕ
  pub deleted_at : Option ℕ
  pub series_id : Option ℕ
  pub recurrence_key : Option ℕ

pub record SeriesFields : Type 0 where
  pub note : NoteFields
  pub local_start : LocalDateTime
  -- Whether `local_start` carries an offset.
  pub local_start_aware : Bool
  pub timezone : String
  pub frequency : Frequency
  pub end_date : LocalDate

pub record SeriesSplit : Type 0 where
  pub fields : SeriesFields
  pub recurrence_key : ℕ
  -- What `resolve_series_version` found.
  pub series_version : ℕ
  pub expected_occurrence_version : ℕ

pub record SeriesPortionRequest : Type 0 where
  pub series_version : ℕ
  pub recurrence_key : Option ℕ

pub record RecurrencePreviewResponse : Type 0 where
  pub starts_at : ℕ
  pub occurrence_count : ℕ

pub record SeriesResponse : Type 0 where
  pub id : ℕ
  pub lineage_id : ℕ
  pub predecessor_id : Option ℕ
  pub local_start : LocalDateTime
  pub timezone : String
  pub frequency : Frequency
  pub end_date : LocalDate
  pub split_boundary : Option ℕ
  pub title : Text
  pub body : Text
  pub active : Bool
  pub tag_ids : List ℕ
  pub reminder_offsets_minutes : List ℕ
  pub version : ℕ
  pub updated_at : ℕ
  pub occurrence_count : ℕ

-- How a parsed `datetime` stands to UTC: no zone, a zone without an offset, an offset.
pub data Awareness : Type 0 where
  naive no_offset with_offset : Awareness

pub data ValidationError : Type 0 where
  missing_utc_offset not_local not_distinct series_version_required aliases_differ : ValidationError

-- `_aware`
unfoldable pub aware : Awareness → Result ValidationError (Unit {0})
aware with_offset = ok tt
aware _ = err missing_utc_offset

-- `_local`
unfoldable pub local : Awareness → Result ValidationError (Unit {0})
local with_offset = err not_local
local _ = ok tt

-- `len(set(value))`
unfoldable pub distinct : List ℕ → List ℕ
distinct [] = []
distinct (x ∷ xs) = let rest = distinct xs in if contains x xs then rest else x ∷ rest

-- The validator of `tag_ids` and `reminder_offsets_minutes`.
unfoldable pub distinct_values : List ℕ → Result ValidationError (List ℕ)
unfolding distinct
distinct_values value =
    if not (length value == length (distinct value)) then err not_distinct else ok value

-- `resolve_series_version`, with the property `series_version` that reads its outcome.
unfoldable pub resolve_series_version : Option ℕ → Option ℕ → Result ValidationError ℕ
resolve_series_version none none = err series_version_required
resolve_series_version none (some legacy) = ok legacy
resolve_series_version (some canonical) none = ok canonical
resolve_series_version (some canonical) (some legacy) =
    if canonical == legacy then ok canonical else err aliases_differ
