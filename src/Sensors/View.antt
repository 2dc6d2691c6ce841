-- ===== src/Sensors/View.antt =====
-- The handlers of the sensor view of web_console/static/js/app.js that change its selection, and what
-- it does with the answers to its requests for the chart. The times of `Date.now()` and the parsed
-- dates are carried by the events.
pub mod Ranges
use gateway_hub.Sensors.Selection.{
  choose_window, refresh, reply, focus, latest_range, jump_latest, apply_dates, select_device,
  window_mode, range_around, first_key, pick_reading, is_chart_due, is_configured, press_tab,
  custom, fetch_chart, keys_text, selected_metric, View, Answer, Range, Event, Request,
}
use gateway_hub.Prelude.{
  ◌&&◌, ltb, not, ◌==◌, includes, length, map, any, joined, ◌||◌, set_key, lookup_in, ◌===◌, some,
  find, ◌+◌, if◌then◌else◌, String, ℕ, none, List, Option, Bool, [], ◌∷◌,
}
use gateway_hub.Prelude.Int.{ℤ, pos, negsuc, ◌+ℤ◌, ◌-ℤ◌, ltb_ℤ, int_text}
use gateway_hub.Insights.Data.{Device, device_key}
use gateway_hub.Insights.Events.{split_key}
use gateway_hub.Incidents.Data.{Response, failed, refused, answered}
use gateway_hub.Sensors.Issues.{Anomaly}

module _ {S : Type 0} where
  -- What `svFetchAndRenderChart` does with the answers.
  unfoldable pub receive_chart : ℕ → String → Response (Answer S) → View S → View S
  receive_chart now metric failed v = v
  receive_chart now metric refused v = v
  receive_chart now metric (answered a) v =
      let loaded = record v {
        series = lookup_in metric a.metrics;
        anomalies = if a.anomalies_ok then a.events else [];
        last_fetch = now;
      } in
      if a.history_ok then loaded else v

  -- `svSetMetric`
  abbrev pub set_metric : String → View S → View S
  set_metric name v = record v { metric_sel = set_key v.selected name v.metric_sel }

  -- Without devices, or with one that is selected and configured, the selection stays.
  abbrev pub keeps_selection : View S → Bool
  keeps_selection v =
      length v.configured == 0 || (not (v.selected === "") && is_configured v.selected v.configured)

  -- `svBuildTabs`, of the devices that are configured now.
  unfoldable pub build_tabs : View S → View S
  build_tabs v =
      let keys = keys_text v.configured in
      if keys === v.tab_keys
      then v
      else if keeps_selection v
      then record v { tab_keys = keys }
      else record v { tab_keys = keys; selected = first_key v.configured }

  -- What a change of the device forgets.
  abbrev forget : View S → View S
  forget v = record v { series = none; anomalies = []; last_fetch = 0 }

  unfoldable pub press_device_tab : String → View S → View S
  unfolding fetch_chart
  press_device_tab key v =
      let next = fetch_chart (forget (record v { selected = key })) in
      if key === v.selected then v else next

  unfoldable pub pick_metric_row : String → View S → View S
  unfolding fetch_chart
  pick_metric_row name v =
      let next = fetch_chart (record (set_metric name v) { series = none; last_fetch = 0 }) in
      if name === selected_metric v then v else next

  -- What a change of the range resets before it requests the chart.
  unfoldable pub change_range : Range → View S → View S
  unfolding fetch_chart
  change_range range v =
      fetch_chart
        (record v { range = range; series = none; last_fetch = 0; issues_page = 0; expanded = [] })

  -- The dates of `svDateApply`: the start of the first day and the end of the last one.
  unfoldable pub apply_range : Option ℤ → Option ℤ → View S → View S
  unfolding change_range
  apply_range none to_ms v = v
  apply_range (some from_ms) none v = v
  apply_range (some from_ms) (some to_ms) v =
      let next = change_range (custom from_ms to_ms) v in if ltb_ℤ from_ms to_ms then next else v

  abbrev pub set_event_metric : Option String → View S → View S
  set_event_metric none v = v
  set_event_metric (some name) v =
      let next = set_metric name v in if name === "" || name === selected_metric v then v else next

  -- `svFocusAnom`, up to its request.
  unfoldable pub focus_anomaly : Anomaly → View S → View S
  unfolding fetch_chart
  focus_anomaly e v =
      fetch_chart (record (set_event_metric e.metric v) { range = range_around e.ts_ms })

  -- `svSelectDevice`
  unfoldable pub select_configured : String → View S → View S
  select_configured key v =
      let next = forget (record v { selected = key; tab_keys = "" }) in
      if is_configured key v.configured then next else v

  unfoldable pub refresh_chart : Range → Bool → ℕ → View S → View S
  unfolding fetch_chart
  refresh_chart window_mode force now v =
      if is_chart_due force v.last_fetch now then fetch_chart v else v
  refresh_chart (custom from_ms to_ms) force now v = if force then fetch_chart v else v

  -- `svRefresh`, its chart.
  unfoldable pub sv_refresh : Bool → Bool → ℕ → View S → View S
  unfolding build_tabs refresh_chart
  sv_refresh active force now v =
      let built = build_tabs v in
      let next = refresh_chart built.range force now built in if active then next else built

  unfoldable pub step : View S → Event S → View S
  unfolding press_device_tab pick_metric_row change_range apply_range focus_anomaly
      select_configured sv_refresh receive_chart
  step v (press_tab key) = press_device_tab key v
  step v (pick_reading name) = pick_metric_row name v
  step v (choose_window w) = change_range window_mode (record v { window = w })
  step v (select_device key) = select_configured key v
  step v (apply_dates from_ms to_ms) = apply_range from_ms to_ms v
  step v (jump_latest last_ms) = change_range (latest_range last_ms) v
  step v (focus e) = focus_anomaly e v
  step v (reply now metric r) = receive_chart now metric r v
  step v (refresh active force now configured) =
      sv_refresh active force now (record v { configured = configured })

  unfoldable pub run : View S → List (Event S) → View S
  unfolding step
  run v [] = v
  run v (e ∷ events) = run (step v e) events
