-- ===== src/Overview/Tests.antt =====
-- The overview of a gateway that is on Wi-Fi, and of three incidents.
use gateway_hub.Overview.InsightsCard.Problems.{summary-problems}
use gateway_hub.Overview.InsightsCard.{
  is_bad, rows_limit, summary, row_of, Configured, FlagEvent, LiveDevice, rows_of,
}
use gateway_hub.Overview.IncidentBand.Order.{sort_incidents_lem, NewestFirst, of_other}
use gateway_hub.Incidents.Data.{Incident}
use gateway_hub.Overview.IncidentBand.{of_status, sort_incidents}
use mathlib.Core.List.{Perm}
use gateway_hub.Prelude.{
  true, All, drop, some, none, map, ◌++◌, false, ℕ, List, String, ◌≡◌, ◌⊎◌, [], ◌∷◌,
}
use gateway_hub.Network.Examples.{wifi_gateway}
use gateway_hub.Overview.{wireless_state, wifi_item, wifi_box}
use gateway_hub.Overview.Agreement.{wifi_places_agree}

wifi_places_agree_example :
    (wireless_state wifi_gateway ≡ (wifi_item wifi_gateway).state)
    × ((wifi_item wifi_gateway).tone ≡ (wifi_box wifi_gateway).tone)
wifi_places_agree_example = wifi_places_agree wifi_gateway

abbrev incident : String → String → ℕ → Incident
incident ref status started = record {
  ref = ref;
  status = status;
  ongoing = false;
  started_ms = started;
}

abbrev three_incidents : List Incident
three_incidents =
    incident "INC-1" "resolved" 10 ∷ incident "INC-2" "open" 20 ∷ incident "INC-3" "open" 30 ∷ []

sort_incidents_lem_example :
    let all = sort_incidents three_incidents in
    Perm all three_incidents
    × (all
        ≡ of_status "open" all
          ++ of_status "recovering" all
          ++ of_status "resolved" all
          ++ of_other all)
    × NewestFirst (of_status "open" all)
    × NewestFirst (of_status "recovering" all)
    × NewestFirst (of_status "resolved" all)
    × NewestFirst (of_other all)
sort_incidents_lem_example = sort_incidents_lem three_incidents

abbrev sensor : String → Configured
sensor id = record { source = "rs485"; device_id = id; name = none }

abbrev online : String → LiveDevice
online id = record { source = "rs485"; device_id = id; status = some "ok" }

abbrev six_sensors : List Configured
six_sensors = sensor "a" ∷ sensor "b" ∷ sensor "c" ∷ sensor "d" ∷ sensor "e" ∷ sensor "f" ∷ []

abbrev five_online : List LiveDevice
five_online = online "a" ∷ online "b" ∷ online "c" ∷ online "d" ∷ online "e" ∷ []

abbrev one_flag : List FlagEvent
one_flag =
    record { source = "rs485"; device_id = "e"; event_type = some "anomaly:spike"; count = 2 } ∷ []

summary-problems_example :
    let rows = rows_of six_sensors five_online one_flag in
    Perm rows (map (row_of five_online one_flag) six_sensors)
    × ((summary six_sensors five_online one_flag).shown ++ drop rows_limit rows ≡ rows)
    × (All (λ r. is_bad r ≡ false) (drop rows_limit rows)
        ⊎ All (λ r. is_bad r ≡ true) (summary six_sensors five_online one_flag).shown)
summary-problems_example = summary-problems six_sensors five_online one_flag
