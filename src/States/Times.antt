-- ===== src/States/Times.antt =====
-- What the sort keys of pke/src/pke/temporal/membership.py say of the times of states.
use jamesbrain.Common.{
  ℕ, ◌*◌, ◌<◌, leb, sym, ap, ◌∙◌, Option, none, Text, true, false, ◌≡◌, ◌≢◌, ◌⊎◌, inl, inr, refl,
  some, arith, ◌==◌, Bool-cases,
}
use jamesbrain.Temporal.Instant.{DateTime, utc, iso_text, day_us, ZoneData}
use jamesbrain.Temporal.Knowledge.{TemporalKnowledge}
use jamesbrain.Temporal.Membership.{sort_key, temporal_instant}
use jamesbrain.Ranking.{key_lt, is_unknown}
use jamesbrain.States.{State, state_key}

-- What is known of the time of a fact: its instant, else its first day, else nothing.
pub data Known : Type 0 where
  at_instant : DateTime → Known
  from_day : ℕ → Known
  at_no_time : Known

abbrev time_or_day : Option DateTime → Option ℕ → Known
time_or_day (some i) d = Known.at_instant i
time_or_day none (some d) = Known.from_day d
time_or_day none none = Known.at_no_time

abbrev pub time_of : ZoneData → TemporalKnowledge → Known
time_of zd t = time_or_day (temporal_instant zd t) t.interval_start

-- The first is earlier, or the two cannot be compared: they are instants of different offsets, or of
-- an offset that no datetime has. A day alone is put after every instant.
abbrev pub IsBefore : Known → Known → Type 0
IsBefore (Known.at_instant a) (Known.at_instant b) =
    (utc a < utc b) ⊎ ((a.east ≢ b.east) ⊎ (2 * day_us < b.east))
IsBefore (Known.at_instant a) (Known.from_day d) = Unit
IsBefore (Known.from_day c) (Known.from_day d) = c < d
IsBefore _ _ = ⊥

-- The key of a known time.
abbrev key_of_time : Known → Text → ℕ × Text
key_of_time (Known.at_instant a) text = (0, iso_text a)
key_of_time (Known.from_day d) text = (1, d)
key_of_time Known.at_no_time text = (2, text)

sort_key-time :
    (i : Option DateTime) (d : Option ℕ) (text : Text)
    → ◌≡◌ {A = ℕ × Text}
        (elim i [ some a ↦ (0, iso_text a) | none ↦ elim d [ some e ↦ (1, e) | none ↦ (2, text) ] ])
        (key_of_time (time_or_day i d) text)
sort_key-time (some a) d text = refl
sort_key-time none (some e) text = refl
sort_key-time none none text = refl

state_key-time :
    (zd : ZoneData) (s : State)
    → state_key zd s ≡ key_of_time (time_of zd s.temporal) s.temporal.original_text
unfolding state_key sort_key
state_key-time zd s =
    sort_key-time (temporal_instant zd s.temporal) s.temporal.interval_start
      s.temporal.original_text

key_of_time-IsBefore :
    (k l : Known) (t u : Text)
    → leb 2 (key_of_time k t).0 ≡ false
    → leb 2 (key_of_time l u).0 ≡ false
    → key_lt (key_of_time k t) (key_of_time l u) ≡ true
    → IsBefore k l
unfolding key_lt iso_text utc
key_of_time-IsBefore (Known.at_instant a) (Known.at_instant b) t u p q h =
    elim (Bool-cases (a.east == b.east)) [
      | inl e ↦ elim (Bool-cases (leb b.east (2 * day_us))) [
        | inl w ↦ inl (ground arith)
        | inr w ↦ inr (inr (ground arith))
      ]
      | inr n ↦ inr (inl (λ e. ground arith))
    ]
key_of_time-IsBefore (Known.at_instant a) (Known.from_day d) t u p q h = tt
key_of_time-IsBefore (Known.from_day c) (Known.at_instant b) t u p q h = ground arith
key_of_time-IsBefore (Known.from_day c) (Known.from_day d) t u p q h = ground arith
key_of_time-IsBefore Known.at_no_time l t u p q h = ground arith
key_of_time-IsBefore (Known.at_instant a) Known.at_no_time t u p q h = ground arith
key_of_time-IsBefore (Known.from_day c) Known.at_no_time t u p q h = ground arith

abbrev pub id_of_state : State → Text
id_of_state s = s.id

-- What the order of the keys says of the times.
pub key_lt-IsBefore :
    (zd : ZoneData) (x s : State)
    → is_unknown (state_key zd) id_of_state x ≡ false
    → is_unknown (state_key zd) id_of_state s ≡ false
    → key_lt (state_key zd x) (state_key zd s) ≡ true
    → IsBefore (time_of zd x.temporal) (time_of zd s.temporal)
unfolding is_unknown
key_lt-IsBefore zd x s p q h =
    key_of_time-IsBefore (time_of zd x.temporal) (time_of zd s.temporal) x.temporal.original_text
      s.temporal.original_text (ap (λ k. leb 2 k.0) (sym (state_key-time zd x)) ∙ p)
      (ap (λ k. leb 2 k.0) (sym (state_key-time zd s)) ∙ q)
      (ap (λ k. key_lt k (key_of_time (time_of zd s.temporal) s.temporal.original_text))
          (sym (state_key-time zd x))
        ∙ ap (key_lt (state_key zd x)) (sym (state_key-time zd s))
        ∙ h)
