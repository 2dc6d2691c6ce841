-- ===== src/Format.antt =====
-- Durations and ages as the pages of web_console/static/js print them. A time is a whole number of
-- milliseconds or seconds; each constructor of `Span` and `Ago` is one template literal of the code.
pub mod Accuracy
use gateway_hub.Prelude.{
  ℕ, ◌+◌, ◌-◌, ◌*◌, ◌/◌, ◌%◌, Bool, ◌&&◌, Option, none, some, String, List, [], ◌∷◌, ltb, ◌==◌,
  template, to_string, if◌then◌else◌,
}
use gateway_hub.Prelude.Int.{ℤ, pos, negsuc}

pub data Span : Type 0 where
  -- the dash of a value that is not known
  unknown : Span
  seconds : ℕ → Span
  minutes : ℕ → Span
  hours : ℕ → Span
  days : ℕ → Span
  minutes_seconds : ℕ → ℕ → Span
  hours_minutes : ℕ → ℕ → Span
  days_hours : ℕ → ℕ → Span

-- The text of a span.
unfoldable pub print : Span → String
print unknown = "—"
print (seconds s) = template (to_string s ∷ "s" ∷ [])
print (minutes m) = template (to_string m ∷ "m" ∷ [])
print (hours h) = template (to_string h ∷ "h" ∷ [])
print (days d) = template (to_string d ∷ "d" ∷ [])
print (minutes_seconds m s) = template (to_string m ∷ "m " ∷ to_string s ∷ "s" ∷ [])
print (hours_minutes h m) = template (to_string h ∷ "h " ∷ to_string m ∷ "m" ∷ [])
print (days_hours d h) = template (to_string d ∷ "d " ∷ to_string h ∷ "h" ∷ [])

-- `Math.round(ms / 1000)`
abbrev pub round_seconds : ℕ → ℕ
round_seconds ms = (ms + 500) / 1000

-- `duration` of incidents.js, past its first line.
abbrev pub span_of_seconds : ℕ → Span
span_of_seconds s =
    let m = s / 60 in
    let h = m / 60 in
    if ltb s 60
    then seconds s
    else if ltb m 60
    then minutes_seconds m (s % 60)
    else if ltb h 24
    then hours_minutes h (m % 60)
    else days_hours (h / 24) (h % 24)

unfoldable pub duration : Option ℤ → Span
duration none = unknown
duration (some (negsuc n)) = unknown
duration (some (pos ms)) = if ms == 0 then unknown else span_of_seconds (round_seconds ms)

-- `_fmtDur` of the overview.
unfoldable pub fmt_dur : Option ℕ → Span
fmt_dur none = unknown
fmt_dur (some secs) =
    if ltb secs 60
    then seconds secs
    else if ltb secs 3600
    then minutes_seconds (secs / 60) (secs % 60)
    else hours_minutes (secs / 3600) (secs % 3600 / 60)

unfoldable pub fmt_dur_ms : Option ℕ → Span
unfolding fmt_dur
fmt_dur_ms none = unknown
fmt_dur_ms (some ms) = fmt_dur (some (round_seconds ms))

-- `_stFmt` of the connectivity page.
unfoldable pub st_fmt : Option ℕ → Span
st_fmt none = unknown
st_fmt (some secs) =
    if ltb secs 60
    then seconds secs
    else if ltb secs 3600
    then minutes_seconds (secs / 60) (secs % 60)
    else let h = secs / 3600 in let m = secs % 3600 / 60 in hours_minutes h m

unfoldable pub st_fmt_ms : Option ℕ → Span
unfolding st_fmt
st_fmt_ms none = unknown
st_fmt_ms (some ms) = st_fmt (some (round_seconds ms))

-- `_fmtDurMon` of the monitor page.
unfoldable pub fmt_dur_mon : Option ℕ → Span
fmt_dur_mon none = unknown
fmt_dur_mon (some secs) =
    let h = secs / 3600 in
    let m = secs % 3600 / 60 in
    if ltb secs 60
    then seconds secs
    else if ltb secs 3600
    then minutes_seconds (secs / 60) (secs % 60)
    else if ltb 0 h && ltb 0 m
    then hours_minutes h m
    else if ltb 0 h
    then hours h
    else minutes m

-- `_fwDur` of the forwarding page; no duration, and one of 0, are both the dash.
unfoldable pub fw_dur : Option ℕ → Span
fw_dur none = unknown
fw_dur (some secs) =
    if secs == 0
    then unknown
    else if ltb secs 60
    then seconds secs
    else if ltb secs 3600
    then minutes_seconds (secs / 60) (secs % 60)
    else if ltb secs 86400
    then (let h = secs / 3600 in
        let m = secs % 3600 / 60 in if ltb 0 m then hours_minutes h m else hours h)
    else let d = secs / 86400 in
      let h = secs % 86400 / 3600 in if ltb 0 h then days_hours d h else days d

-- How long ago something happened: a word, or a span followed by "ago".
pub data Ago : Type 0 where
  never : Ago
  just_now : Ago
  ago : Span → Ago

-- `_fwdAgo` of the overview's forwarding strip.
unfoldable pub fwd_ago : Option ℕ → Ago
fwd_ago none = never
fwd_ago (some secs) =
    if ltb secs 60
    then ago (seconds secs)
    else if ltb secs 3600
    then ago (minutes (secs / 60))
    else ago (hours (secs / 3600))

-- `_fwAgo` of the forwarding page; its word for a missing time is the dash.
unfoldable pub fw_ago : Option ℕ → Ago
fw_ago none = never
fw_ago (some secs) =
    let h = secs / 3600 in
    let m = secs % 3600 / 60 in
    if ltb secs 2
    then just_now
    else if ltb secs 60
    then ago (seconds secs)
    else if ltb secs 3600
    then ago (minutes (secs / 60))
    else if ltb 0 m
    then ago (hours_minutes h m)
    else ago (hours h)

-- `fmtAgo` of the anomaly view, at the time `now`; a time to come counts as now.
unfoldable pub fmt_ago : ℕ → ℕ → Ago
fmt_ago now ms =
    let s = round_seconds (now - ms) in
    if ltb s 60
    then ago (seconds s)
    else if ltb s 3600
    then ago (minutes (s / 60))
    else if ltb s 86400
    then ago (hours (s / 3600))
    else ago (days (s / 86400))
