-- ===== src/Temporal/Instant.antt =====
-- Python's `datetime` values, as far as pke/src/pke/temporal/membership.py uses them: aware
-- datetimes compared by their instant, dates as ordinals (`date.toordinal()`), `datetime.combine`
-- at midnight in a zone, and the order of ISO texts. The zone database is a parameter.
use jamesbrain.Common.{ℕ, ◌+◌, ◌-◌, ◌*◌, ◌/◌, ◌≤◌, Text, leb, if◌then◌else◌}

-- The microseconds of a day.
abbrev pub day_us : ℕ
day_us = 86_400_000_000

-- An aware datetime: the microseconds of its wall clock since 0001-01-01, and its offset from UTC
-- counted from 24 hours west, so that UTC itself is `day_us` (Python keeps offsets strictly within
-- 24 hours of UTC).
pub record DateTime : Type 0 where
  pub wall : ℕ
  pub east : ℕ

-- Its instant, in microseconds of UTC from a day before 0001-01-01. Datetimes are compared by it.
-- Python compares those that share one `tzinfo` object by their wall clocks, which is the same where
-- their offsets agree, and may differ across a change of the clocks of that zone; that case is left
-- out.
unfoldable pub utc : DateTime → ℕ
utc d = d.wall + 2 * day_us - d.east

-- `datetime.date()`, the date on the wall.
unfoldable pub date_of : DateTime → ℕ
date_of d = d.wall / day_us

-- The place of `datetime.isoformat()` among such texts: the wall clock is written first, in digits
-- of fixed width, then the offset, of which `+` comes before `-` and the smaller before the larger.
unfoldable pub iso_text : DateTime → Text
iso_text d =
    d.wall * (4 * day_us)
    + (if leb day_us d.east then d.east - day_us else 2 * day_us + (day_us - d.east))

-- `dt.UTC`, or `ZoneInfo(name)` of a name that the zone database knows.
pub data Zone : Type 0 where
  utc_zone : Zone
  zone_info : Text → Zone

-- The zone database: the offset of a named zone at a wall time. Its midnights come in order, since
-- no zone moves its clocks by more than a day.
pub record ZoneData : Type 0 where
  pub east_at : Text → ℕ → ℕ
  pub midnights_ordered :
      (name : Text) (day : ℕ)
      → day * day_us + 2 * day_us - east_at name (day * day_us)
        ≤ (day + 1) * day_us + 2 * day_us - east_at name ((day + 1) * day_us)

unfoldable pub east_of : ZoneData → Zone → ℕ → ℕ
east_of zd Zone.utc_zone wall = day_us
east_of zd (Zone.zone_info name) wall = zd.east_at name wall

-- `datetime.combine(day, time.min, tzinfo=zone)`. A day added to it in Python is a day on the
-- wall, the next midnight of the zone.
unfoldable pub midnight : ZoneData → Zone → ℕ → DateTime
unfolding east_of
midnight zd zone day = record { wall = day * day_us; east = east_of zd zone (day * day_us) }
