-- ===== src/EdgeServer/Windows.antt =====
-- The windows of time of the Edge Server page in web_console/static/js/app.js:
-- `esProtocolWindowMinutes`, `esLiveWindowInfo`, `esHistoryWindowInfo` and `esAlertWindowInfo`. What
-- the browser does with numbers, dates and zones is in `Browser`; `now` is `Date.now()`.
pub mod Agreement
use gateway_hub.Prelude.{
  ℕ, ◌+◌, ◌-◌, ◌*◌, ◌/◌, ◌≤◌, ◌<◌, ◌≡◌, refl, Bool, true, false, not, ◌||◌, Option, none, some,
  String, List, [], ◌∷◌, ◌++◌, ltb, ◌==◌, ◌===◌, or_text, template, to_string, if◌then◌else◌, arith,
}
use gateway_hub.Prelude.Int.{ℤ, pos, sub_ℕ}

pub record Browser : Type 0 where
  -- `Number(text)`: none where the text is no number of the page's windows.
  pub number : String → Option ℕ
  -- `new Date(ms).toISOString()`
  pub iso : ℤ → String
  -- `esLocalRangeFromDay(day, hour)`, in milliseconds.
  pub local_range : String → Option String → ℤ × ℤ
  -- `toLocaleDateString()`, without and with options.
  pub date_text : ℤ → String
  pub long_date : ℤ → String

pub data LiveLabel : Type 0 where
  last_minutes : ℕ → LiveLabel
  last_hours : ℕ → LiveLabel

unfoldable pub print : LiveLabel → String
print (last_minutes n) = template ("Last " ∷ to_string n ∷ " minutes" ∷ [])
print (last_hours n) = template ("Last " ∷ to_string n ∷ " hours" ∷ [])

abbrev clamp_minutes : ℕ → ℕ
clamp_minutes n = if ltb 1440 n then 1440 else if ltb n 5 then 5 else n

-- The finite number, between 5 and 1440, or 60.
unfoldable pub minutes_of : Option ℕ → ℕ
minutes_of none = 60
minutes_of (some n) = clamp_minutes n

unfoldable pub protocol_window_minutes : Browser → Option String → ℕ
unfolding minutes_of
protocol_window_minutes b value = minutes_of (b.number (or_text value "60"))

abbrev pub label_of : ℕ → LiveLabel
label_of m =
    if ltb m 60
    then last_minutes m
    else if m == 60
    then last_minutes 60
    else if m == 1440
    then last_hours 24
    else last_hours ((m + 30) / 60)

pub record LiveWindow : Type 0 where
  pub minutes : ℕ
  pub label : LiveLabel
  pub min_ms : ℤ
  pub max_ms : ℤ
  pub relative_start : String
  pub relative_end : String
  pub time_mode : String

unfoldable pub live_window_info : Browser → ℕ → Option String → LiveWindow
unfolding protocol_window_minutes
live_window_info b now value =
    let m = protocol_window_minutes b value in
    record {
      minutes = m;
      label = label_of m;
      min_ms = sub_ℕ now (m * 60000);
      max_ms = pos now;
      relative_start = if m == 60 then "-60m" else template ("-" ∷ to_string m ∷ "m" ∷ []);
      relative_end = "now";
      time_mode = if ltb 360 m then "datetime" else "time";
    }

pub record Window : Type 0 where
  pub params : List (String × String)
  pub range : String
  pub label : String
  pub start_ms : Option ℤ
  pub end_ms : Option ℤ
  pub relative_start : String
  pub relative_end : String
  pub time_mode : String
  -- Of a history window; an alert window has none.
  pub bucket_ms : Option ℕ
  pub bucket_label : String

-- The texts of the three ranges that end now: 24 hours, 7 days, and any other, 30 days.
abbrev pub pick {ℓ} : {A : Type ℓ} → String → A → A → A → A
pick range a b c = if range === "24h" then a else if range === "7d" then b else c

abbrev pub range_duration : String → ℕ
range_duration range = pick range (24 * 3600 * 1000) (7 * 86400 * 1000) (30 * 86400 * 1000)

abbrev pub from_to : Browser → ℤ → ℤ → List (String × String)
from_to b start end = ("from", b.iso start) ∷ ("to", b.iso end) ∷ []

-- `if (v) params.set(k, v)`
abbrev pub param_if : String → String → List (String × String)
param_if key value = if value === "" then [] else (key, value) ∷ []

-- The window of the stored history; `day` and `hour` are the values of its two inputs.
unfoldable pub history_window_info :
    Browser → ℕ → Option String → Option String → String → String → Window
history_window_info b now range_value protocol day hour =
    let range = or_text range_value "30d" in
    let params = param_if "protocol_group" (or_text protocol "") in
    let of_hour = b.local_range day (some hour) in
    let of_day = b.local_range day none in
    let start = sub_ℕ now (range_duration range) in
    if range === "hour"
    then record {
      params = params ++ from_to b of_hour.0 of_hour.1;
      range = range;
      label = template (b.date_text of_hour.0 ∷ " " ∷ hour ∷ ":00-" ∷ hour ∷ ":59" ∷ []);
      start_ms = some of_hour.0;
      end_ms = some of_hour.1;
      relative_start = "";
      relative_end = "";
      time_mode = "time";
      bucket_ms = some 60000;
      bucket_label = "per minute";
    }
    else if range === "day"
    then record {
      params = params ++ from_to b of_day.0 of_day.1;
      range = range;
      label = b.long_date of_day.0;
      start_ms = some of_day.0;
      end_ms = some of_day.1;
      relative_start = "";
      relative_end = "";
      time_mode = "time";
      bucket_ms = some 60000;
      bucket_label = "per minute";
    }
    else if range === "all"
    then record {
      params = params;
      range = range;
      label = "All stored data";
      start_ms = none;
      end_ms = none;
      relative_start = "";
      relative_end = "";
      time_mode = "datetime";
      bucket_ms = some (86400 * 1000);
      bucket_label = "per day";
    }
    else record {
      params = params ++ from_to b start (pos now);
      range = range;
      label = pick range "Last 24 hours" "Last 7 days" "Last 30 days";
      start_ms = some start;
      end_ms = some (pos now);
      relative_start = pick range "-24h" "-7d" "-30d";
      relative_end = "now";
      time_mode = if range === "24h" then "time" else "datetime";
      bucket_ms = some (if range === "24h" then 60000 else 3600 * 1000);
      bucket_label = if range === "24h" then "per minute" else "per hour";
    }

-- The filters of the alerts: a protocol hides the group.
abbrev pub alert_filters : Option String → Option String → Option String → List (String × String)
alert_filters group protocol device =
    let by_protocol = param_if "protocol" (or_text protocol "") in
    let by_group = param_if "protocol_group" (or_text group "") in
    ("limit", "10000") ∷ (if or_text protocol "" === "" then by_group else by_protocol)
    ++ param_if "device_id" (or_text device "")

unfoldable pub alert_window_info :
    Browser → ℕ → Option String → Option String → Option String → Option String → Window
alert_window_info b now range_value group protocol device =
    let range = or_text range_value "30d" in
    let params = alert_filters group protocol device in
    let start = sub_ℕ now (range_duration range) in
    if range === "all"
    then record {
      params = params;
      range = range;
      label = "All stored data";
      start_ms = none;
      end_ms = none;
      relative_start = "";
      relative_end = "";
      time_mode = "datetime";
      bucket_ms = none;
      bucket_label = "";
    }
    else record {
      params = params ++ from_to b start (pos now);
      range = range;
      label = pick range "Last 24 hours" "Last 7 days" "Last 30 days";
      start_ms = some start;
      end_ms = some (pos now);
      relative_start = pick range "-24h" "-7d" "-30d";
      relative_end = "now";
      time_mode = if range === "24h" then "time" else "datetime";
      bucket_ms = none;
      bucket_label = "";
    }
