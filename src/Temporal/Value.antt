-- ===== src/Temporal/Value.antt =====
-- `TimeValue`, `Recurrence` and `TimePrecision` of pke/src/pke/domain/value_objects.py. The fields
-- that nothing here reads (interpretation, time_of_day, confidence, reference_at,
-- reference_timezone, day_period) are left out of `TimeValue`.
use jamesbrain.Common.{ℕ, Bool, true, false, Option, Text, String}
use jamesbrain.Temporal.Instant.{DateTime}

pub data TimePrecision : Type 0 where
  day minute approx_day recurring period day_period partial : TimePrecision

-- `precision is TimePrecision.DAY`, and so for others
abbrev pub is_day : TimePrecision → Bool
is_day TimePrecision.day = true
is_day _ = false

abbrev pub is_minute : TimePrecision → Bool
is_minute TimePrecision.minute = true
is_minute _ = false

abbrev pub is_recurring : TimePrecision → Bool
is_recurring TimePrecision.recurring = true
is_recurring _ = false

-- `precision in {APPROX_DAY, DAY_PERIOD}`
abbrev pub is_vague_day : TimePrecision → Bool
is_vague_day TimePrecision.approx_day = true
is_vague_day TimePrecision.day_period = true
is_vague_day _ = false

pub record Recurrence : Type 0 where
  pub freq : Text
  pub interval : ℕ
  pub by_monthday : Option ℕ
  pub by_weekday : Option ℕ
  pub until : Option ℕ
  pub count : Option ℕ
  pub rrule : Option Text

-- A date is its ordinal.
pub record TimeValue : Type 0 where
  pub original_text : Text
  pub instant : Option DateTime
  pub date : Option ℕ
  pub period_start : Option DateTime
  pub period_end : Option DateTime
  pub timezone : Option Text
  pub recurrence : Option Recurrence
  pub precision : TimePrecision
  pub resolution_rule : Option String
