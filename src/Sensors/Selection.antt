-- ===== src/Sensors/Selection.antt =====
-- The selection of the sensor view of web_console/static/js/app.js and the requests that it makes:
-- the device, the charted reading, the range of time, and `svFetchAndRenderChart` up to its requests.
-- `S` is a series as it is drawn.
pub mod Asked
use gateway_hub.Prelude.{
  ltb, ◌===◌, map, none, includes, ◌==◌, lookup_in, joined, some, any, if◌then◌else◌, ◌+◌, ◌||◌,
  find, Bool, Option, String, ℕ, List, [], ◌∷◌,
}
use gateway_hub.Prelude.Int.{ℤ, pos, ◌-ℤ◌, int_text}
use gateway_hub.Insights.Data.{Device, device_key}
use gateway_hub.Insights.Events.{split_key}
use gateway_hub.Incidents.Data.{Response}
use gateway_hub.Sensors.Issues.{Anomaly}

pub data Range : Type 0 where
  window_mode : Range
  custom : ℤ → ℤ → Range

-- The two requests of `svFetchAndRenderChart`, which share a device and a range.
pub record Request : Type 0 where
  pub source : String
  pub device_id : String
  pub metric : String
  pub range : Range
  pub window : String

-- `svRangeParams`
unfoldable pub range_params : Range → String → List (String × String)
range_params window_mode window = ("window", window) ∷ []
range_params (custom from_ms to_ms) window =
    ("from_ms", int_text from_ms) ∷ ("to_ms", int_text to_ms) ∷ []

unfoldable pub history_params : Request → List (String × String)
unfolding range_params
history_params r =
    ("source", r.source)
    ∷ ("device_id", r.device_id)
    ∷ ("metrics", r.metric)
    ∷ range_params r.range r.window

abbrev pub key_of : Device → String
key_of d = device_key d.source d.device_id

abbrev pub first_or_empty : List String → String
first_or_empty [] = ""
first_or_empty (name ∷ names) = name

abbrev pub names_of : Option Device → List String
names_of none = []
names_of (some d) = d.expected

-- `names.includes(saved) ? saved : (names[0] || "")`
abbrev pub pick_metric : List String → Option String → String
pick_metric names none = first_or_empty names
pick_metric names (some saved) = if includes names saved then saved else first_or_empty names

module _ (S : Type 0) where
  pub record View : Type 0 where
    pub configured : List Device
    pub tab_keys : String
    pub selected : String
    pub metric_sel : List (String × String)
    pub range : Range
    pub window : String
    pub series : Option S
    pub anomalies : List Anomaly
    pub last_fetch : ℕ
    pub issues_page : ℕ
    pub expanded : List String
    -- the requests so far, the last one first
    pub sent : List Request

  -- The answers to the two requests, the first for a metric.
  pub record Answer : Type 0 where
    pub history_ok : Bool
    pub metrics : List (String × S)
    pub anomalies_ok : Bool
    pub events : List Anomaly

  pub data Event : Type 0 where
    press_tab pick_reading choose_window select_device : String → Event
    apply_dates : Option ℤ → Option ℤ → Event
    jump_latest : ℕ → Event
    focus : Anomaly → Event
    reply : ℕ → String → Response Answer → Event
    -- whether the tab is current, whether it is forced, the time, and the devices
    refresh : Bool → Bool → ℕ → List Device → Event

abbrev pub keys_text : List Device → String
keys_text devices = joined "," (map key_of devices)

abbrev pub first_key : List Device → String
first_key [] = ""
first_key (d ∷ devices) = key_of d

abbrev pub is_configured : String → List Device → Bool
is_configured key devices = any (λ d. key_of d === key) devices

-- The six hours before the last data, and the minute after it.
abbrev pub latest_range : ℕ → Range
latest_range last_ms = custom (pos last_ms -ℤ pos 21600000) (pos (last_ms + 60000))

-- A quarter of an hour on both sides of an event.
abbrev pub range_around : ℕ → Range
range_around ts = custom (pos ts -ℤ pos 900000) (pos (ts + 900000))

abbrev pub is_chart_due : Bool → ℕ → ℕ → Bool
is_chart_due force last now = force || last == 0 || ltb (last + 30000) now

module _ {S : Type 0} where
  -- `svDevice`
  abbrev pub device_of : View S → Option Device
  device_of v = find (λ d. key_of d === v.selected) v.configured

  -- `svSelectedMetric`
  abbrev pub selected_metric : View S → String
  selected_metric v = pick_metric (names_of (device_of v)) (lookup_in v.selected v.metric_sel)

  -- The request for the chart of the selected device.
  abbrev pub asked : View S → Request
  asked v =
      let key = split_key v.selected in
      record {
        source = key.0;
        device_id = key.1;
        metric = selected_metric v;
        range = v.range;
        window = v.window;
      }

  abbrev pub request_for : View S → Option Device → Option Request
  request_for v none = none
  request_for v (some d) = if selected_metric v === "" then none else some (asked v)

  unfoldable pub request : View S → Option Request
  request v = if v.selected === "" then none else request_for v (device_of v)

  abbrev pub with_request : Option Request → View S → View S
  with_request none v = v
  with_request (some r) v = record v { sent = r ∷ v.sent }

  -- `svFetchAndRenderChart`, up to its requests.
  unfoldable pub fetch_chart : View S → View S
  unfolding request
  fetch_chart v = with_request (request v) v
