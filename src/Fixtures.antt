-- ===== src/Fixtures.antt =====
-- Sample rows that the tests run the program on.
use mad_devs_note_taker.Base.{ℕ, ◌+◌, ◌*◌, true, false, some, none, [], ◌∷◌}
use mad_devs_note_taker.Calendar.{LocalDate, key}
use mad_devs_note_taker.Models.{
  Db, RecurrenceSeries, Note, ReminderRule, ReminderDelivery, DeliveryState,
}
use mad_devs_note_taker.Recurrence.{Zones, monthly}
use mad_devs_note_taker.Base.Text.{codes}
use mad_devs_note_taker.Schemas.{SeriesSplit}
use mad_devs_note_taker.Session.{day, second}

-- A time zone data base with one zone, whose wall time is the instant's.
abbrev pub utc_only : Zones
utc_only = record {
  zone_info = λ name. true;
  gettz = λ name. true;
  converts = λ name wall. true;
  datetime_exists = λ name wall. true;
  to_utc = λ name wall. key wall.date * day + wall.micros;
  local_date = λ name instant. record { year = 2024; month = 1; day = 31 };
}

abbrev pub january_31 : LocalDate
january_31 = record { year = 2024; month = 1; day = 31 }

abbrev pub march_31 : LocalDate
march_31 = record { year = 2024; month = 3; day = 31 }

abbrev pub april_2 : LocalDate
april_2 = record { year = 2024; month = 4; day = 2 }

abbrev pub nine_o_clock : ℕ
nine_o_clock = 32_400_000_000

-- A note that starts when the tenth day ends.
abbrev pub sample_note : Note
sample_note = record {
  id = 1;
  title = 84 ∷ [];
  body = [];
  starts_at = 10 * day;
  active = true;
  deleted_at = none;
  superseded_at = none;
  series_trashed_at = none;
  purged_at = none;
  series_id = none;
  recurrence_key = none;
  current_recurring_trash_action_id = none;
  updated_at = day;
  version = 1;
}

abbrev pub sample_rule : ReminderRule
sample_rule = record {
  id = 2;
  note_id = 1;
  offset_minutes = 30;
  enabled = true;
  current_cycle_number = 1;
}

abbrev pub sample_delivery : ReminderDelivery
sample_delivery = record {
  id = 3;
  reminder_rule_id = 2;
  cycle_number = 1;
  due_at = 10 * day;
  state = DeliveryState.pending;
  claim_token = none;
  claim_expires_at = none;
  authorized_at = none;
  recipient_snapshot = none;
  content_snapshot = none;
  result_at = none;
  error_code = none;
}

-- One note with one rule, whose first delivery is pending.
abbrev pub sample_db : Db
sample_db = record {
  user_settings = [];
  tags = [];
  recurrence_series = [];
  notes = sample_note ∷ [];
  trash_actions = [];
  trash_members = [];
  note_tags = [];
  series_tags = [];
  exceptions = [];
  rules = sample_rule ∷ [];
  templates = [];
  deliveries = sample_delivery ∷ [];
  notifications = [];
  outbox = [];
  next_uuid = 4;
  clock = λ n. 10 * day + n * second;
  reads = 0;
  server_now = 10 * day;
}

abbrev pub first_key : ℕ
first_key = key january_31 * day + nine_o_clock

-- A monthly series with its first occurrence.
abbrev pub sample_series : RecurrenceSeries
sample_series = record {
  id = 20;
  lineage_id = 20;
  predecessor_id = none;
  local_start = record { date = january_31; micros = nine_o_clock };
  timezone = "UTC";
  rrule = codes "FREQ=MONTHLY;INTERVAL=1";
  end_date = march_31;
  split_boundary = none;
  template_title = 84 ∷ [];
  template_body = [];
  template_active = true;
  purged_at = none;
  updated_at = day;
  version = 1;
}

abbrev pub sample_occurrence : Note
sample_occurrence = record sample_note {
  id = 21;
  starts_at = first_key;
  series_id = some 20;
  recurrence_key = some first_key;
}

abbrev pub series_db : Db
series_db = record sample_db {
  recurrence_series = sample_series ∷ [];
  notes = sample_occurrence ∷ [];
  rules = [];
  deliveries = [];
  next_uuid = 30;
}

-- The same schedule up to April, under a new title.
abbrev pub sample_split : SeriesSplit
sample_split = record {
  fields = record {
    note = record {
      title = 85 ∷ [];
      body = [];
      starts_at = first_key;
      active = true;
      tag_ids = [];
      reminder_offsets_minutes = [];
    };
    local_start = record { date = january_31; micros = nine_o_clock };
    local_start_aware = false;
    timezone = "UTC";
    frequency = monthly;
    end_date = april_2;
  };
  recurrence_key = first_key;
  series_version = 1;
  expected_occurrence_version = 1;
}
