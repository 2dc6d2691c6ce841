-- ===== src/Sensors/Tests.antt =====
-- The sensor view at a concrete list of anomalies, series and sequence of events.
use gateway_hub.Sensors.Selection.{
  refresh, custom, jump_latest, fetch_chart, focus, key_of, apply_dates, request, window_mode,
  device_of, View, Event, Request,
}
use gateway_hub.Sensors.Selection.Asked.{request-configured}
use gateway_hub.Sensors.Readings.Agreement.{update_row-rebuilt}
use gateway_hub.Sensors.Series.Nearest.{series_value_at_lem, IsFirstNearest, readings}
use gateway_hub.Sensors.Issues.Groups.{issues_lem, sum_counts, DistinctKeys, Describes}
use gateway_hub.Sensors.View.Ranges.{run-AreValid, AreValid}
use gateway_hub.Sensors.Series.{nearest_from, Sample, series_value_at}
use gateway_hub.Insights.Data.{Live, Device}
use gateway_hub.Sensors.Issues.{
  group_key, count_in, new_group, later, add_event, Anomaly, group_from, issues,
}
use gateway_hub.Sensors.Readings.{Row, update_row, build_row}
use gateway_hub.Sensors.View.{
  change_range, focus_anomaly, apply_range, refresh_chart, build_tabs, sv_refresh, run, step,
}
use gateway_hub.Prelude.{
  ◌-◌, leb, if◌then◌else◌, template, length, ◌⊎◌, map, false, includes, true, All, none, some, ℕ,
  ◌≡◌, List, [], ◌∷◌, refl,
}
use gateway_hub.Prelude.Sort.{OrderedBy, sort_by}
use gateway_hub.Prelude.Int.{◌-ℤ◌, pos}
use mathlib.Core.List.{Perm}

abbrev spike : Anomaly
spike = record {
  ts_ms = 1000;
  metric = some "temp";
  metric_label = none;
  alarm_name = none;
  category = some "Spike";
  severity = some "Warning";
  detector = some "z";
}

abbrev three : List Anomaly
three =
    spike ∷ record spike { metric = some "flow"; ts_ms = 1500 } ∷ record spike { ts_ms = 4000 } ∷ []

issues_lem_example :
    let groups = group_from (λ s. s) [] three in
    Perm (issues (λ s. s) three) groups
    × OrderedBy later (issues (λ s. s) three)
    × All (Describes three) groups
    × DistinctKeys groups
    × (sum_counts groups ≡ length three)
issues_lem_example = issues_lem (λ s. s) three

-- The spikes of the temperature come first, as their latest event is the latest of all.
issues-three : map (λ g. g.count) (issues (λ s. s) three) ≡ 2 ∷ 1 ∷ []
unfolding issues group_from add_event new_group count_in group_key sort_by template
issues-three = refl

abbrev line : List (Sample ℕ)
line =
    record { time = 1000; avg = some 7 }
    ∷ record { time = 2000; avg = none }
    ∷ record { time = 3000; avg = some 9 }
    ∷ []

abbrev exact : ℕ → ℕ → ℕ
exact t at = if leb t at then at - t else t - at

series_value_at_lem_example :
    ((series_value_at exact 2000 line ≡ none) × (readings exact 2000 line ≡ []))
    ⊎ ((v : ℕ) × (d : ℕ) × (series_value_at exact 2000 line ≡ some v)
        × IsFirstNearest exact 2000 v d (readings exact 2000 line))
series_value_at_lem_example = series_value_at_lem exact 2000 line

series_value_at-line : series_value_at exact 2000 line ≡ some 7
unfolding series_value_at nearest_from
series_value_at-line = refl

abbrev meter : Device
meter = record { source = "rs485"; device_id = "meter:1"; expected = "temp" ∷ "flow" ∷ [] }

abbrev fresh : View ℕ
fresh = record {
  configured = meter ∷ [];
  tab_keys = "";
  selected = "rs485:meter:1";
  metric_sel = ("rs485:meter:1", "flow") ∷ [];
  range = window_mode;
  window = "24h";
  series = none;
  anomalies = [];
  last_fetch = 0;
  issues_page = 0;
  expanded = [];
  sent = [];
}

-- Dates in the wrong order are refused; the jump to an event and the timer request the chart.
abbrev visit : List (Event ℕ)
visit =
    refresh true false 50000 (meter ∷ [])
    ∷ apply_dates (some (pos 9000)) (some (pos 2000))
    ∷ focus (record spike { ts_ms = 1000000 })
    ∷ jump_latest 30000000
    ∷ []

run-AreValid_example : AreValid (run fresh visit)
run-AreValid_example = run-AreValid fresh visit refl refl

run-visit : (run fresh visit).range ≡ custom (pos 8400000) (pos 30060000)
unfolding run step sv_refresh build_tabs refresh_chart fetch_chart request apply_range focus_anomaly
    change_range ◌-ℤ◌ template
run-visit = refl

abbrev flow_request : Request
flow_request = record {
  source = "rs485";
  device_id = "meter:1";
  metric = "flow";
  range = window_mode;
  window = "24h";
}

request-fresh : request fresh ≡ some flow_request
unfolding request template
request-fresh = refl

request-configured_example :
    (d : Device) × (device_of fresh ≡ some d)
    × (key_of d ≡ fresh.selected)
    × (flow_request.source ≡ d.source)
    × (flow_request.device_id ≡ d.device_id)
    × (includes d.expected flow_request.metric ≡ true)
    × (flow_request.range ≡ fresh.range)
request-configured_example = request-configured fresh flow_request (refl, tt) request-fresh

abbrev meter_live : Live
meter_live = record {
  source = "rs485";
  device_id = "meter:1";
  status = some "ok";
  error = none;
  timestamp_ms = some 1000;
  metrics = ("flow", record { value = some "3"; quality = some "stale"; unit = some "l/min" }) ∷ [];
  samples = [];
}

abbrev old_row : Row
old_row = record {
  value = "--";
  unit = "";
  value_class = "";
  dot_class = "";
  pill_class = "none";
  pill = "—";
}

update_row-rebuilt_example :
    update_row (some meter_live) "flow" old_row
    ≡ record (build_row none (some meter_live) "flow") { unit = "" }
update_row-rebuilt_example =
    update_row-rebuilt none meter_live "flow"
      (record { value = some "3"; quality = some "stale"; unit = some "l/min" }) old_row refl refl
