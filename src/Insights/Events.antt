-- ===== src/Insights/Events.antt =====
-- The events tab of the insights page of web_console/static/js/app.js: its filters, the requests that
-- they send, the two views, and the page of raw events. A request is the list of the parameters of
-- its address; the times of `Date.now()` are carried by the events.
pub mod Carries
pub mod Rows
pub mod Sent
pub mod Current
mod Tests
use gateway_hub.Incidents.Data.{refused, failed, answered, Response}
use Prim.Native.String.{String}
use gateway_hub.Timeline.{not_asked, Press, render, History, press}
use Prim.Native.Char.{code}
use Prim.Native.String
use gateway_hub.Prelude.{
  ◌+◌, length, ◌||◌, none, ◌===◌, ltb, template, some, ◌==◌, if◌then◌else◌, ℕ, Bool, Option, List,
  [], ◌∷◌,
}
use gateway_hub.Incidents.PageList.{nothing_loaded, PageList, Answer, inc_load, press_button}
use gateway_hub.Insights.Data.{Device, device_key}
use gateway_hub.Insights.Events.Rows.{RawEvent}

abbrev Params : Type 0
Params = List (String × String)

-- `key.split(":")`, into the first part and the others joined by ":".
abbrev pub split_key : String → String × String
split_key String.[] = ("", "")
split_key (String.◌∷◌ c s) =
    let rest = split_key s in if code c == b':' then ("", s) else (String.◌∷◌ c rest.0, rest.1)

pub data View : Type 0 where
  incidents raw : View

pub record Tab : Type 0 where
  pub view : View
  pub window : String
  pub severity : String
  pub chosen_device : String
  -- the value that the select of devices shows
  pub device_shown : String
  pub last_fetch : ℕ
  pub history : History RawEvent
  pub inc_window : String
  pub inc_status : String
  pub inc_domain : String
  pub inc_last_fetch : ℕ
  pub incident_list : PageList
  -- the requests so far, the last one first
  pub sent_events : List Params
  pub sent_incidents : List Params

abbrev pub set_if_filled : String → String → Params → Params
set_if_filled name value rest = if value === "" then rest else (name, value) ∷ rest

-- The parameters of `evLoadEvents` and of `incLoad`.
unfoldable pub ev_params : String → String → String → Params
ev_params window severity chosen =
    let key = split_key chosen in
    ("window", window)
    ∷ set_if_filled "severity" severity
        (if chosen === "" then [] else ("source", key.0) ∷ ("device_id", key.1) ∷ [])

unfoldable pub inc_params : String → String → String → Params
inc_params window status domain =
    ("window", window)
    ∷ ("scope", "sensors")
    ∷ set_if_filled "status" status (set_if_filled "domain" domain [])

abbrev pub load_events : Tab → Tab
load_events t = record t {
  sent_events = ev_params t.window t.severity t.chosen_device ∷ t.sent_events;
}

abbrev pub load_incidents : Tab → Tab
load_incidents t = record t {
  sent_incidents = inc_params t.inc_window t.inc_status t.inc_domain ∷ t.sent_incidents;
}

abbrev pub ev_per_page : ℕ
ev_per_page = 8

-- `evRenderTimeline`
unfoldable pub render_timeline : History RawEvent → History RawEvent
render_timeline h = record (render ev_per_page h) { empty_hidden = ltb 0 (length h.events) }

abbrev pub raw_of : Option (List RawEvent) → List RawEvent
raw_of none = []
raw_of (some events) = events

-- What `evLoadEvents` and `incLoad` do with an answer.
unfoldable pub receive_events : ℕ → Response (Option (List RawEvent)) → Tab → Tab
unfolding render_timeline
receive_events now failed t = t
receive_events now refused t = t
receive_events now (answered body) t = record t {
  history = render_timeline (record t.history { events = raw_of body });
  last_fetch = now;
}

unfoldable pub receive_incidents : ℕ → Response Answer → Tab → Tab
unfolding inc_load
receive_incidents now failed t = t
receive_incidents now refused t = t
receive_incidents now (answered a) t = record t {
  incident_list = inc_load (answered a) t.incident_list;
  inc_last_fetch = now;
}

-- The select after `evUpdateDeviceFilter` has written its options: it shows the option of its old
-- value, or the first one if there is none.
unfoldable pub kept_value : String → List Device → String
kept_value current [] = ""
kept_value current (d ∷ devices) =
    let rest = kept_value current devices in
    if device_key d.source d.device_id === current then current else rest

abbrev pub update_device_filter : List Device → Tab → Tab
update_device_filter configured t = record t { device_shown = kept_value t.device_shown configured }

-- `!last || now - last > 10_000`
abbrev pub is_due : ℕ → ℕ → Bool
is_due last now = last == 0 || ltb (last + 10000) now

unfoldable pub refresh_view : View → ℕ → Tab → Tab
refresh_view incidents now t = if is_due t.inc_last_fetch now then load_incidents t else t
refresh_view raw now t = if is_due t.last_fetch now then load_events t else t

-- `evRefresh`, with whether the tab is the current one.
unfoldable pub ev_refresh : Bool → ℕ → List Device → Tab → Tab
unfolding kept_value refresh_view
ev_refresh active now configured t =
    let updated = update_device_filter configured t in
    if active then refresh_view t.view now updated else updated

unfoldable pub switch_view : View → Tab → Tab
switch_view incidents t = load_incidents (record t { view = incidents })
switch_view raw t = load_events (record t { view = raw })

pub data Event : Type 0 where
  choose_severity choose_device choose_window : String → Event
  choose_status choose_domain choose_inc_window : String → Event
  choose_view : View → Event
  refresh : Bool → ℕ → List Device → Event
  events_reply : ℕ → Response (Option (List RawEvent)) → Event
  incidents_reply : ℕ → Response Answer → Event
  press_events : Press → Event
  press_incidents : ℕ → Event

-- The tab before its first request.
abbrev pub opened : Tab
opened = record {
  view = incidents;
  window = "24h";
  severity = "";
  chosen_device = "";
  device_shown = "";
  last_fetch = 0;
  history = not_asked;
  inc_window = "24h";
  inc_status = "";
  inc_domain = "";
  inc_last_fetch = 0;
  incident_list = nothing_loaded;
  sent_events = [];
  sent_incidents = [];
}

abbrev first_page : Tab → Tab
first_page t = record t { history = record t.history { page = 0 } }

unfoldable pub step : Tab → Event → Tab
unfolding ev_refresh switch_view receive_events receive_incidents
step t (choose_severity s) = load_events (first_page (record t { severity = s }))
step t (choose_device k) =
    load_events (first_page (record t { chosen_device = k; device_shown = k }))
step t (choose_window w) = load_events (first_page (record t { window = w; last_fetch = 0 }))
step t (choose_status s) = load_incidents (record t { inc_status = s })
step t (choose_domain d) = load_incidents (record t { inc_domain = d })
step t (choose_inc_window w) = load_incidents (record t { inc_window = w })
step t (choose_view v) = switch_view v t
step t (refresh active now configured) = ev_refresh active now configured t
step t (events_reply now r) = receive_events now r t
step t (incidents_reply now r) = receive_incidents now r t
step t (press_events p) = record t { history = press ev_per_page p t.history }
step t (press_incidents i) = record t { incident_list = press_button 8 i t.incident_list }

unfoldable pub run : Tab → List Event → Tab
unfolding step
run t [] = t
run t (e ∷ events) = run (step t e) events
