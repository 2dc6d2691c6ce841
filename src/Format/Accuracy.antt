-- ===== src/Format/Accuracy.antt =====
-- What a printed duration says of the time that it stands for.
use gateway_hub.Prelude.{◌-◌, ℕ, ◌+◌, ◌*◌, ◌≤◌, ◌<◌, ◌≡◌, refl, none, some, arith}
use gateway_hub.Prelude.Int.{pos}
use gateway_hub.Format.{
  negsuc, Span, unknown, seconds, minutes, hours, days, minutes_seconds, hours_minutes, days_hours,
  Ago, never, just_now, ago, round_seconds, span_of_seconds, duration, fmt_dur, fmt_dur_ms, st_fmt,
  st_fmt_ms, fmt_dur_mon, fw_dur, fwd_ago, fw_ago, fmt_ago,
}

-- The lower part of a span is less than one of its upper unit, and the time lies between the span
-- and the span with one more of its lowest unit.
abbrev pub Covers : Span → ℕ → Type 0
Covers unknown s = ⊥
Covers (seconds a) s = a ≡ s
Covers (minutes a) s = (a * 60 ≤ s) × (s < a * 60 + 60)
Covers (hours a) s = (a * 3600 ≤ s) × (s < a * 3600 + 3600)
Covers (days a) s = (a * 86400 ≤ s) × (s < a * 86400 + 86400)
Covers (minutes_seconds a b) s = (b < 60) × (a * 60 + b ≡ s)
Covers (hours_minutes a b) s = (b < 60) × (a * 3600 + b * 60 ≤ s) × (s < a * 3600 + b * 60 + 60)
Covers (days_hours a b) s =
    (b < 24) × (a * 86400 + b * 3600 ≤ s) × (s < a * 86400 + b * 3600 + 3600)

abbrev pub CoversAgo : Ago → ℕ → Type 0
CoversAgo never s = ⊥
CoversAgo just_now s = s < 2
CoversAgo (ago span) s = Covers span s

span_of_seconds-Covers : (s : ℕ) → Covers (span_of_seconds s) s
span_of_seconds-Covers s = ground arith

fmt_dur-Covers : (s : ℕ) → Covers (fmt_dur (some s)) s
unfolding fmt_dur
fmt_dur-Covers s = ground arith

fmt_dur_mon-Covers : (s : ℕ) → Covers (fmt_dur_mon (some s)) s
unfolding fmt_dur_mon
fmt_dur_mon-Covers s = ground arith

fw_dur-Covers : (s : ℕ) → 0 < s → Covers (fw_dur (some s)) s
unfolding fw_dur
fw_dur-Covers s h = ground arith

-- The three pages' duration formatters say the number of whole seconds they are given, up to the
-- unit that they leave out: the overview's and the monitor's for every number, the forwarding
-- page's for every number but 0, and the connectivity page's is the overview's.
pub durations_accurate :
    (s : ℕ)
    → Covers (fmt_dur (some s)) s
      × Covers (fmt_dur_mon (some s)) s
      × (0 < s → Covers (fw_dur (some s)) s)
      × (st_fmt (some s) ≡ fmt_dur (some s))
      × (st_fmt_ms (some s) ≡ fmt_dur_ms (some s))
unfolding fmt_dur st_fmt fmt_dur_ms st_fmt_ms
durations_accurate s = (fmt_dur-Covers s, fmt_dur_mon-Covers s, fw_dur-Covers s, refl, refl)

-- An incident's duration of at least a millisecond is printed as its rounded number of seconds,
-- up to the unit that is left out; a duration of 0, below 0 or that is missing is the dash.
pub duration-Covers :
    (n : ℕ)
    → (0 < n → Covers (duration (some (pos n))) (round_seconds n))
      × (duration (some (pos 0)) ≡ unknown)
      × (duration (some (negsuc n)) ≡ unknown)
      × (duration none ≡ unknown)
unfolding duration
duration-Covers n =
    ((λ h. ground (arith, span_of_seconds-Covers (round_seconds n))), refl, refl, refl)

-- The ages of the overview, the forwarding page and the anomaly view say the seconds since, up to
-- the unit that is left out; a time to come has the age 0.
pub ages_accurate :
    (s now ms : ℕ)
    → CoversAgo (fwd_ago (some s)) s
      × CoversAgo (fw_ago (some s)) s
      × CoversAgo (fmt_ago now ms) (round_seconds (now - ms))
      × (now ≤ ms → fmt_ago now ms ≡ ago (seconds 0))
unfolding fwd_ago fw_ago fmt_ago
ages_accurate s now ms = (ground arith, ground arith, ground arith, ground arith)
