-- ===== src/Temporal/Membership/Windows.antt =====
-- The windows and sort keys that pke/src/pke/temporal/membership.py derives from a fact's time.
use jamesbrain.Common.{
  ℕ, ◌+◌, ◌-◌, ◌*◌, ◌≤◌, ◌<◌, ◌≡◌, ◌↔◌, zero, suc, Option, none, some, Text, arith, Option-cases,
  ◌⊎◌, inl, inr, true, refl,
}
use jamesbrain.Temporal.Instant.{DateTime, utc, iso_text, day_us, Zone, ZoneData, midnight}
use jamesbrain.Temporal.Value.{TimePrecision, TimeValue}
use jamesbrain.Temporal.Knowledge.{
  TemporalKind, TemporalGranularity, TemporalKnowledge, RelationToReference, OccurrenceStatus,
  TemporalSourceKind, from_calendar, calendar_granularity,
}
use jamesbrain.Temporal.Knowledge.Constructors.{calendar_occurrence}
use jamesbrain.Ranking.{key_lt}
use jamesbrain.Temporal.Membership.{
  Window, interval_window, period_or, day_window, calendar_window, occurrence_possible_window,
  zone_of, day_of, sort_key, temporal_instant,
}

midnight-step :
    (zd : ZoneData) (zone : Zone) (day : ℕ)
    → utc (midnight zd zone day) ≤ utc (midnight zd zone (day + 1))
unfolding utc midnight
midnight-step zd Zone.utc_zone day = omega arith
midnight-step zd (Zone.zone_info name) day = zd.midnights_ordered name day

midnight_add :
    (zd : ZoneData) (zone : Zone) (day k : ℕ)
    → utc (midnight zd zone day) ≤ utc (midnight zd zone (day + k))
midnight_add zd zone day zero = let e : day + zero ≡ day = omega arith in rw e (omega arith)
midnight_add zd zone day (suc k) =
    let e : day + suc k ≡ (day + k) + 1 = omega arith in
    rw e (omega (arith, midnight_add zd zone day k, midnight-step zd zone (day + k)))

midnight_mono :
    (zd : ZoneData) (zone : Zone) (d d' : ℕ)
    → d ≤ d'
    → utc (midnight zd zone d) ≤ utc (midnight zd zone d')
midnight_mono zd zone d d' h =
    let e : d' ≡ d + (d' - d) = omega arith in rw e (midnight_add zd zone d (d' - d))

-- The stored dates of an interval, when both are there, are in order.
abbrev pub HasOrderedDates : Option ℕ → Option ℕ → Type 0
HasOrderedDates (some a) (some b) = a ≤ b
HasOrderedDates _ _ = Unit

interval_window-ordered :
    (zd : ZoneData) (zone : Zone) (a b : Option ℕ) (w : Window)
    → HasOrderedDates a b
    → interval_window zd zone a b ≡ some w
    → utc w.0 ≤ utc w.1
unfolding interval_window
interval_window-ordered zd zone (some a) (some b) w h e =
    ground (arith, midnight_mono zd zone a (b + 1))
interval_window-ordered zd zone (some a) none w h e = cc
interval_window-ordered zd zone none _ w h e = cc

day_window-ordered :
    (zd : ZoneData) (zone : Zone) (d : Option ℕ) (w : Window)
    → day_window zd zone d ≡ some w
    → utc w.0 ≤ utc w.1
unfolding day_window
day_window-ordered zd zone none w e = cc
day_window-ordered zd zone (some d) w e = ground (arith, midnight-step zd zone d)

period_or-ordered :
    (s e : Option DateTime) (rest : Option Window) (w : Window)
    → period_or s e rest ≡ some w
    → (rest ≡ some w) ⊎ (utc w.0 ≤ utc w.1)
unfolding period_or
period_or-ordered (some s) (some e) rest w h = ground arith
period_or-ordered (some s) none rest w h = inl h
period_or-ordered none _ rest w h = inl h

calendar_window-ordered :
    (zd : ZoneData) (zone : Zone) (g : Option TemporalGranularity) (c : TimeValue) (w : Window)
    → calendar_window zd zone g c ≡ some w
    → utc w.0 ≤ utc w.1
unfolding calendar_window
calendar_window-ordered zd zone g c w h =
    ground (arith, day_window-ordered zd zone (day_of c.date c.instant) w)

-- Whatever a fact's calendar says, and in any zone, a window derived for it does not end before it
-- starts, provided that its stored interval dates are in order.
pub occurrence_possible_window_ordered :
    (zd : ZoneData) (t : TemporalKnowledge) (w : Window)
    → HasOrderedDates t.interval_start t.interval_end
    → occurrence_possible_window zd t ≡ some w
    → utc w.0 ≤ utc w.1
unfolding occurrence_possible_window
occurrence_possible_window_ordered zd t w h e = elim (Option-cases t.calendar) [
  | inl no_calendar ↦ ground (
    arith,
    interval_window-ordered zd (zone_of t.calendar) t.interval_start t.interval_end w,
    interval_window-ordered zd Zone.utc_zone t.interval_start t.interval_end w,
  )
  | inr (c, known) ↦ ground (
    arith,
    interval_window-ordered zd (zone_of t.calendar) t.interval_start t.interval_end w,
    calendar_window-ordered zd (zone_of (some c)) (calendar_granularity t) c w,
  )
]

-- A day told as a one-day occurrence and the same day told as a calendar date with no zone give the
-- same window, and it is that day's.
pub day_window_agree :
    (zd : ZoneData) (text : Text) (c : TimeValue) (d : ℕ) (r : RelationToReference)
    (o : OccurrenceStatus) (s : TemporalSourceKind) {t u : TemporalKnowledge}
    → c.date ≡ some d
    → c.timezone ≡ none
    → c.recurrence ≡ none
    → c.period_start ≡ none
    → c.precision ≡ TimePrecision.day
    → calendar_occurrence text d d TemporalGranularity.day r o ≡ some t
    → from_calendar c TemporalKind.exact s none ≡ some u
    → (occurrence_possible_window zd t
        ≡ some (midnight zd Zone.utc_zone d, midnight zd Zone.utc_zone (d + 1)))
      × (occurrence_possible_window zd u ≡ occurrence_possible_window zd t)
unfolding occurrence_possible_window calendar_occurrence from_calendar
day_window_agree zd text c d r o s hd hz hr hp hc ht hu = ground arith

-- Between times of one offset, the order of the keys is the order of the instants.
pub iso_text-same_offset :
    (a b : DateTime)
    → a.east ≡ b.east
    → b.east ≤ 2 * day_us
    → (iso_text a ≤ iso_text b) ↔ (utc a ≤ utc b)
unfolding iso_text utc
iso_text-same_offset a b e o = (λ h. ground arith, λ h. ground arith)

-- Between times of different offsets it need not be.
iso_text-wall_order :
    (a b : DateTime)
    → a.wall < b.wall
    → a.east ≤ 2 * day_us
    → b.east ≤ 2 * day_us
    → utc b < utc a
    → iso_text a < iso_text b
unfolding iso_text utc
iso_text-wall_order a b w ea eb h = ground arith

-- A time with an instant has a key of the first rank.
pub sort_key-instant :
    (zd : ZoneData) (t : TemporalKnowledge) (a : DateTime)
    → temporal_instant zd t ≡ some a
    → sort_key zd t ≡ (0, iso_text a)
unfolding sort_key
sort_key-instant zd t a e = rw (sort_key, e) refl

-- Of two known times, at offsets within a day of UTC, whose wall clocks say the opposite of their
-- instants, the sort key takes the one that is later by its instant for the earlier one.
pub sort_key-wall_order :
    (zd : ZoneData) (t u : TemporalKnowledge) (a b : DateTime)
    → temporal_instant zd t ≡ some a
    → temporal_instant zd u ≡ some b
    → a.wall < b.wall
    → a.east ≤ 2 * day_us
    → b.east ≤ 2 * day_us
    → utc b < utc a
    → key_lt (sort_key zd t) (sort_key zd u) ≡ true
unfolding key_lt
sort_key-wall_order zd t u a b e f w ea eb h =
    let lt = iso_text-wall_order a b w ea eb h in
    rw (sort_key-instant zd t a e, sort_key-instant zd u b f) (ground arith)
