-- ===== src/Models/Rows.antt =====
-- The tables' rows (classes of backend/app/db/models.py).
use mad_devs_note_taker.Base.{ℕ, Bool, true, false, Option, List, String}
use mad_devs_note_taker.Calendar.{LocalDate, LocalDateTime}

abbrev pub Text : Type 0
Text = List ℕ

pub data DeliveryState : Type 0 where
  pending claimed attempt_started sent failed unknown missed cancelled : DeliveryState

-- `state in {pending, claimed}`
abbrev pub is_open : DeliveryState → Bool
is_open DeliveryState.pending = true
is_open DeliveryState.claimed = true
is_open _ = false

abbrev pub is_pending : DeliveryState → Bool
is_pending DeliveryState.pending = true
is_pending _ = false

abbrev pub is_claimed : DeliveryState → Bool
is_claimed DeliveryState.claimed = true
is_claimed _ = false

abbrev pub is_cancelled : DeliveryState → Bool
is_cancelled DeliveryState.cancelled = true
is_cancelled _ = false

abbrev pub is_attempt_started : DeliveryState → Bool
is_attempt_started DeliveryState.attempt_started = true
is_attempt_started _ = false

pub record UserSettings : Type 0 where
  pub id : ℕ
  pub email : Text
  pub timezone : String
  pub updated_at : ℕ
  pub version : ℕ

pub record Tag : Type 0 where
  pub id : ℕ
  pub name : Text
  pub normalized_name : Text
  pub color : Text
  pub updated_at : ℕ
  pub version : ℕ

pub record RecurrenceSeries : Type 0 where
  pub id : ℕ
  pub lineage_id : ℕ
  pub predecessor_id : Option ℕ
  pub local_start : LocalDateTime
  pub timezone : String
  pub rrule : Text
  pub end_date : LocalDate
  pub split_boundary : Option ℕ
  pub template_title : Text
  pub template_body : Text
  pub template_active : Bool
  pub purged_at : Option ℕ
  pub updated_at : ℕ
  pub version : ℕ

pub record Note : Type 0 where
  pub id : ℕ
  pub title : Text
  pub body : Text
  pub starts_at : ℕ
  pub active : Bool
  pub deleted_at : Option ℕ
  pub superseded_at : Option ℕ
  pub series_trashed_at : Option ℕ
  pub purged_at : Option ℕ
  pub series_id : Option ℕ
  pub recurrence_key : Option ℕ
  pub current_recurring_trash_action_id : Option ℕ
  pub updated_at : ℕ
  pub version : ℕ

pub record RecurringTrashAction : Type 0 where
  pub id : ℕ
  pub series_id : ℕ
  pub boundary_recurrence_key : ℕ
  pub trashed_at : ℕ
  pub sealed_at : Option ℕ

pub record RecurringTrashActionMember : Type 0 where
  pub action_id : ℕ
  pub note_id : ℕ

pub record NoteTag : Type 0 where
  pub note_id : ℕ
  pub tag_id : ℕ

pub record SeriesTag : Type 0 where
  pub series_id : ℕ
  pub tag_id : ℕ

-- The keys of the JSON object `overridden_fields`.
pub data OverriddenField : Type 0 where
  title body starts_at active tag_ids reminder_offsets_minutes : OverriddenField

pub record OccurrenceException : Type 0 where
  pub series_id : ℕ
  pub recurrence_key : ℕ
  pub overridden_fields : List OverriddenField
  pub cancelled : Bool

pub record ReminderRule : Type 0 where
  pub id : ℕ
  pub note_id : ℕ
  pub offset_minutes : ℕ
  pub enabled : Bool
  pub current_cycle_number : ℕ

pub record SeriesReminderTemplate : Type 0 where
  pub series_id : ℕ
  pub offset_minutes : ℕ

-- `content_snapshot` of a delivery.
pub record Content : Type 0 where
  pub title : Text
  pub body : Text
  pub note_id : ℕ

pub record ReminderDelivery : Type 0 where
  pub id : ℕ
  pub reminder_rule_id : ℕ
  pub cycle_number : ℕ
  pub due_at : ℕ
  pub state : DeliveryState
  pub claim_token : Option ℕ
  pub claim_expires_at : Option ℕ
  pub authorized_at : Option ℕ
  pub recipient_snapshot : Option Text
  pub content_snapshot : Option Content
  pub result_at : Option ℕ
  pub error_code : Option String

pub record Notification : Type 0 where
  pub id : ℕ
  pub reminder_delivery_id : ℕ
  pub scheduled_at : ℕ
  pub created_at : ℕ
  pub title : Text
  pub body : Text

-- The JSON object that an event carries.
pub record Payload : Type 0 where
  pub event_id : ℕ
  pub type : String
  pub occurred_at : ℕ
  pub entity_id : ℕ
  pub notification_id : Option ℕ
  pub version : ℕ
  pub series_id : Option ℕ

pub record OutboxEvent : Type 0 where
  pub id : ℕ
  pub event_type : String
  pub entity_id : ℕ
  pub payload : Payload
  pub created_at : ℕ
  pub published_at : Option ℕ
  pub attempts : ℕ
  pub next_attempt_at : Option ℕ
  pub error_code : Option String
