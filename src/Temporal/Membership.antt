-- ===== src/Temporal/Membership.antt =====
-- The ternary membership of a `TemporalKnowledge` in a query's `TimeRange`
-- (pke/src/pke/temporal/membership.py). A function that reads the zone database takes it first.
pub mod Coarse
pub mod Validity
pub mod Windows
use jamesbrain.Common.{
  ℕ, ◌+◌, ◌<◌, ◌*◌, Bool, true, false, ◌&&◌, ◌||◌, Option, none, some, Text, is_filled,
  if◌then◌else◌, is_some, ltb, leb,
}
use jamesbrain.Temporal.Instant.{DateTime, utc, date_of, iso_text, Zone, ZoneData, midnight}
use jamesbrain.Temporal.Value.{
  TimePrecision, TimeValue, is_day, is_minute, is_recurring, is_vague_day,
}
use jamesbrain.Temporal.Knowledge.{
  TemporalKind, TemporalGranularity, TemporalKnowledge, calendar_granularity, is_interval_kind,
  is_habitual_kind,
}

pub data TemporalMembership : Type 0 where
  match no_match unknown : TemporalMembership

pub data TemporalMembershipRole : Type 0 where
  occurrence_window observation_scope assertion_scope validity_interval : TemporalMembershipRole

-- `TimeRange` of pke/src/pke/query/spec.py; its validator is `IsRange`.
pub record TimeRange : Type 0 where
  pub start : DateTime
  pub end : DateTime

abbrev pub IsRange : TimeRange → Type 0
IsRange q = utc q.start < utc q.end

abbrev pub Window : Type 0
Window = DateTime × DateTime

-- `gran in _CALENDAR_WINDOW_GRAN`
abbrev pub is_calendar_window : Option TemporalGranularity → Bool
is_calendar_window (some TemporalGranularity.year) = true
is_calendar_window (some TemporalGranularity.month) = true
is_calendar_window (some TemporalGranularity.day) = true
is_calendar_window (some TemporalGranularity.week) = true
is_calendar_window _ = false

abbrev pub is_instant_gran : Option TemporalGranularity → Bool
is_instant_gran (some TemporalGranularity.instant) = true
is_instant_gran _ = false

abbrev pub is_day_gran : Option TemporalGranularity → Bool
is_day_gran (some TemporalGranularity.day) = true
is_day_gran _ = false

abbrev pub zone_named : Option Text → Zone
zone_named none = Zone.utc_zone
zone_named (some name) = if is_filled (some name) then Zone.zone_info name else Zone.utc_zone

-- `_zone`
unfoldable pub zone_of : Option TimeValue → Zone
zone_of none = Zone.utc_zone
zone_of (some c) = zone_named c.timezone

unfoldable pub calendar_instant : ZoneData → TimeValue → Option DateTime
calendar_instant zd c = elim c.instant [
  | some i ↦ some i
  | none ↦ elim c.date [
    | some d ↦ some (midnight zd (zone_named c.timezone) d)
    | none ↦ c.period_start
  ]
]

unfoldable pub temporal_instant : ZoneData → TemporalKnowledge → Option DateTime
unfolding calendar_instant
temporal_instant zd t = elim t.calendar [ none ↦ none | some c ↦ calendar_instant zd c ]

exact_instant_of : Option TemporalGranularity → Option TimeValue → Option DateTime
exact_instant_of gran none = none
exact_instant_of gran (some c) =
    if is_instant_gran gran then c.instant else if is_minute c.precision then c.instant else none

-- `_exact_instant`
unfoldable pub exact_instant : TemporalKnowledge → Option DateTime
unfolding exact_instant_of
exact_instant t = exact_instant_of (calendar_granularity t) t.calendar

-- `_inclusive_dates_to_half_open`
unfoldable pub inclusive_dates_to_half_open : ZoneData → Zone → ℕ → ℕ → Window
inclusive_dates_to_half_open zd zone first last =
    (midnight zd zone first, midnight zd zone (last + 1))

unfoldable pub interval_window : ZoneData → Zone → Option ℕ → Option ℕ → Option Window
unfolding inclusive_dates_to_half_open
interval_window zd zone (some first) (some last) =
    some (inclusive_dates_to_half_open zd zone first last)
interval_window zd zone _ _ = none

-- A period that has both ends decides, else the later tests do.
unfoldable pub period_or : Option DateTime → Option DateTime → Option Window → Option Window
period_or (some s) (some e) rest = if ltb (utc s) (utc e) then some (s, e) else none
period_or _ _ rest = rest

unfoldable pub day_of : Option ℕ → Option DateTime → Option ℕ
day_of (some d) _ = some d
day_of none (some i) = some (date_of i)
day_of none none = none

unfoldable pub day_window : ZoneData → Zone → Option ℕ → Option Window
day_window zd zone none = none
day_window zd zone (some d) = some (midnight zd zone d, midnight zd zone (d + 1))

-- The branch of `occurrence_possible_window` for a calendar value.
unfoldable pub calendar_window :
    ZoneData → Zone → Option TemporalGranularity → TimeValue → Option Window
unfolding period_or day_of day_window
calendar_window zd zone gran c =
    if is_some c.recurrence
    then none
    else if is_vague_day c.precision
    then none
    else if is_recurring c.precision
    then none
    else period_or c.period_start c.period_end (
        if is_day_gran gran || (is_day c.precision && (is_some c.date || is_some c.instant))
        then day_window zd zone (day_of c.date c.instant)
        else none)

unfoldable pub occurrence_possible_window : ZoneData → TemporalKnowledge → Option Window
unfolding zone_of interval_window calendar_window
occurrence_possible_window zd t =
    if is_some t.interval_start
      && (is_some t.interval_end && is_calendar_window (calendar_granularity t))
    then interval_window zd (zone_of t.calendar) t.interval_start t.interval_end
    else elim t.calendar [
      | some c ↦ calendar_window zd (zone_of (some c)) (calendar_granularity t) c
      | none ↦
          if is_interval_kind t.kind
          then interval_window zd Zone.utc_zone t.interval_start t.interval_end
          else none
    ]

-- `_coarse_window_membership`
unfoldable pub coarse_window_membership : DateTime → DateTime → TimeRange → TemporalMembership
coarse_window_membership s e q =
    if leb (utc q.start) (utc s) && leb (utc e) (utc q.end)
    then TemporalMembership.match
    else if leb (utc e) (utc q.start) || leb (utc q.end) (utc s)
    then TemporalMembership.no_match
    else TemporalMembership.unknown

-- The branches of `validity_interval_membership`, by the ends that are known.
unfoldable pub validity_interval_membership :
    Option DateTime → Option DateTime → TimeRange → Bool → TemporalMembership
validity_interval_membership none none q open_ended = TemporalMembership.unknown
validity_interval_membership none (some e) q open_ended =
    if leb (utc e) (utc q.start) then TemporalMembership.no_match else TemporalMembership.unknown
validity_interval_membership (some s) none q open_ended =
    if leb (utc q.end) (utc s)
    then TemporalMembership.no_match
    else if open_ended && leb (utc s) (utc q.start)
    then TemporalMembership.match
    else TemporalMembership.unknown
validity_interval_membership (some s) (some e) q open_ended =
    if leb (utc e) (utc q.start)
    then TemporalMembership.no_match
    else if leb (utc q.end) (utc s)
    then TemporalMembership.no_match
    else if leb (utc s) (utc q.start) && leb (utc q.end) (utc e)
    then TemporalMembership.match
    else if leb (utc e) (utc q.start) || leb (utc q.end) (utc s)
    then TemporalMembership.no_match
    else TemporalMembership.unknown

-- `datetime + timedelta(microseconds=1)`
abbrev next_microsecond : DateTime → DateTime
next_microsecond d = record d { wall = d.wall + 1 }

unfoldable pub calendar_bounds :
    ZoneData → Zone → Option TemporalGranularity → TimeValue → Option DateTime × Option DateTime
calendar_bounds zd zone gran c =
    if is_some c.period_start && is_some c.period_end
    then (c.period_start, c.period_end)
    else if is_some c.instant && is_instant_gran gran
    then (c.instant, elim c.instant [ some i ↦ some (next_microsecond i) | none ↦ none ])
    else elim c.date [
      | some d ↦ (some (midnight zd zone d), some (midnight zd zone (d + 1)))
      | none ↦ (none, none)
    ]

abbrev bounds : Option Window → Option DateTime × Option DateTime
bounds none = (none, none)
bounds (some (s, e)) = (some s, some e)

-- `_validity_bounds_from_temporal`
unfoldable pub validity_bounds_from_temporal :
    ZoneData → TemporalKnowledge → Option DateTime × Option DateTime
unfolding zone_of interval_window calendar_bounds
validity_bounds_from_temporal zd t =
    if is_some t.interval_start && is_some t.interval_end
    then bounds (interval_window zd (zone_of t.calendar) t.interval_start t.interval_end)
    else elim t.calendar [
      | some c ↦ calendar_bounds zd (zone_of (some c)) (calendar_granularity t) c
      | none ↦ (none, none)
    ]

abbrev pub recurs : Option TimeValue → Bool
recurs none = false
recurs (some c) = is_some c.recurrence

unfoldable pub instant_membership : DateTime → TimeRange → TemporalMembership
instant_membership i q =
    if leb (utc q.start) (utc i) && ltb (utc i) (utc q.end)
    then TemporalMembership.match
    else TemporalMembership.no_match

-- The last branches of `_coarse_role_membership`: there is no exact instant.
unfoldable pub window_membership : ZoneData → TemporalKnowledge → TimeRange → TemporalMembership
window_membership zd t q =
    if is_instant_gran (calendar_granularity t)
    then TemporalMembership.unknown
    else elim (occurrence_possible_window zd t) [
      | none ↦ TemporalMembership.unknown
      | some w ↦ coarse_window_membership w.0 w.1 q
    ]

-- `_coarse_role_membership`
unfoldable pub coarse_role_membership :
    ZoneData → TemporalKnowledge → TimeRange → TemporalMembership
unfolding window_membership
coarse_role_membership zd t q =
    if is_habitual_kind t.kind
    then TemporalMembership.unknown
    else if recurs t.calendar
    then TemporalMembership.unknown
    else elim (exact_instant t) [
      | some i ↦ instant_membership i q
      | none ↦ window_membership zd t q
    ]

unfoldable pub range_membership :
    ZoneData → TemporalKnowledge → TimeRange → TemporalMembershipRole → TemporalMembership
range_membership zd t q TemporalMembershipRole.validity_interval =
    let b = validity_bounds_from_temporal zd t in validity_interval_membership b.0 b.1 q false
range_membership zd t q _ = coarse_role_membership zd t q

-- The key by which facts are sorted: a rank, then a text.
unfoldable pub sort_key : ZoneData → TemporalKnowledge → ℕ × Text
unfolding temporal_instant
sort_key zd t = elim (temporal_instant zd t) [
  | some i ↦ (0, iso_text i)
  | none ↦ elim t.interval_start [ some d ↦ (1, d) | none ↦ (2, t.original_text) ]
]
