-- ===== src/Sensors/Trends.antt =====
-- The analytics of the sensor view: `svClassifySlope`, `svTrendAge`, the rows of `svRenderTrends`
-- and of `svRenderStatsTable`. Slopes and values are whole numbers of millionths, and their
-- quotients are compared exactly, where the script has floating-point numbers. `value` is `fmtVal`.
pub mod Sensitivity
use gateway_hub.Prelude.{
  ◌-◌, joined, or_text, ◌%◌, not, false, ◌==◌, ◌*◌, none, to_string, leb, template, keep, ltb, true,
  ◌===◌, ◌/◌, some, Option, ℕ, ◌+◌, List, if◌then◌else◌, String, Bool, [], ◌∷◌,
}
use gateway_hub.Prelude.Int.{ℤ, pos, negsuc, pos_part, neg_part, int_text}

pub data Direction : Type 0 where
  rising falling stable : Direction

abbrev pub magnitude : ℤ → ℕ
magnitude n = pos_part n + neg_part n

-- `slope > 0 ? "rising" : "falling"`
abbrev pub direction_of : ℤ → Direction
direction_of n = if ltb 0 (pos_part n) then rising else falling

-- `SV_SENS_PCT[sensitivity] ?? 3`
abbrev pub threshold_of : String → ℕ
threshold_of sensitivity =
    if sensitivity === "low"
    then 10
    else if sensitivity === "medium"
    then 3
    else if sensitivity === "high"
    then 1
    else 3

-- Of a value of 0, the slope alone decides, at a thousandth a minute.
abbrev pub classify_at_zero : ℤ → Direction
classify_at_zero slope = if ltb 1000 (magnitude slope) then direction_of slope else stable

unfoldable pub classify_slope : String → ℤ → ℤ → Direction
classify_slope sensitivity slope current =
    let still = ltb (100 * magnitude slope) (threshold_of sensitivity * magnitude current) in
    if magnitude current == 0
    then classify_at_zero slope
    else if still
    then stable
    else direction_of slope

-- The age in seconds, rounded, of a time in milliseconds before now.
abbrev age_seconds : ℤ → ℤ
age_seconds (pos ms) = pos ((ms + 500) / 1000)
age_seconds (negsuc n) = let s = (n + 500) / 1000 in if s == 0 then pos 0 else negsuc (s - 1)

abbrev age_of : ℤ → String
age_of (negsuc n) = template (int_text (negsuc n) ∷ "s ago" ∷ [])
age_of (pos s) =
    if ltb s 60
    then template (to_string s ∷ "s ago" ∷ [])
    else if ltb s 3600
    then template (to_string ((s + 30) / 60) ∷ "m ago" ∷ [])
    else template (to_string ((s + 1800) / 3600) ∷ "h ago" ∷ [])

-- `svTrendAge`, of how long ago something was computed, if its time is known.
unfoldable pub trend_age : Option ℤ → String
trend_age none = ""
trend_age (some ms) = age_of (age_seconds ms)

pub record Trend : Type 0 where
  pub metric_name : String
  pub slope : Option ℤ
  pub n_samples : ℕ
  pub computed : Option ℤ
  -- the minutes to a threshold, in tenths
  pub ttt_tenths : Option ℕ
  pub ttt_severity : Option String

pub record TrendRow : Type 0 where
  pub direction : Direction
  pub label : String
  pub live : Option String
  pub slope_text : String
  pub meta : String
  pub alert : Option (Bool × String)

abbrev arrow : Direction → String
arrow rising = "↑"
arrow falling = "↓"
arrow stable = "→"

abbrev or_none : Option ℤ → ℤ
or_none none = pos 0
or_none (some n) = n

abbrev is_stable : Direction → Bool
is_stable stable = true
is_stable rising = false
is_stable falling = false

-- `[samples, age].filter(Boolean).join(" · ")`
abbrev filled : List String → List String
filled texts = keep (λ s. not (s === "")) texts

abbrev minutes_text : ℕ → String
minutes_text tenths =
    if ltb tenths 10
    then "<1 min"
    else if ltb tenths 600
    then template (to_string ((tenths + 5) / 10) ∷ " min" ∷ [])
    else let hour_tenths = (tenths + 30) / 60 in
      template (to_string (hour_tenths / 10) ∷ "." ∷ to_string (hour_tenths % 10) ∷ "h" ∷ [])

module _ (value : ℤ → String) (display lower : String → String) where
  unfoldable pub slope_text : Direction → ℤ → String
  slope_text d slope =
      let rate = template (
        (if ltb (magnitude slope) 10000 then "" else if ltb 0 (pos_part slope) then "+" else "")
        ∷ value slope
        ∷ "/min"
        ∷ []) in
      if ltb (magnitude slope) 100
      then "stable"
      else if is_stable d
      then template ("~" ∷ rate ∷ [])
      else rate

  -- The time to a threshold, which a stable reading does not show.
  unfoldable pub alert_text : Direction → Trend → Option (Bool × String)
  alert_text d t = elim t.ttt_tenths [
    | none ↦ none
    | some tenths ↦
        if is_stable d
        then none
        else some (
          lower (or_text t.ttt_severity "warning") === "critical",
          template ("⚡ ~" ∷ minutes_text tenths ∷ " to alert" ∷ []),
        )
  ]

  -- A row, by the sensitivity and the live value of its reading.
  unfoldable pub trend_row : String → Option ℤ → Trend → TrendRow
  unfolding slope_text alert_text
  trend_row sensitivity live t =
      let slope = or_none t.slope in
      let d = classify_slope sensitivity slope (or_none live) in
      record {
        direction = d;
        label = template (arrow d ∷ display t.metric_name ∷ []);
        live = elim live [ none ↦ none | some v ↦ some (value v) ];
        slope_text = slope_text d slope;
        meta = joined " · " (
            filled (
              (if t.n_samples == 0 then "" else template (to_string t.n_samples ∷ " pts" ∷ []))
              ∷ trend_age t.computed
              ∷ []));
        alert = alert_text d t;
      }

pub data HealthClass : Type 0 where
  good_health warn_health crit_health no_class : HealthClass

-- The class of a percentage of good readings.
unfoldable pub health_class : Option ℕ → HealthClass
health_class none = no_class
health_class (some p) =
    if leb 95 p then good_health else if leb 80 p then warn_health else crit_health
