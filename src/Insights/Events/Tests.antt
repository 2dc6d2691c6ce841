-- ===== src/Insights/Events/Tests.antt =====
-- The events tab with a device whose id has a colon.
use gateway_hub.Insights.Events.Current.{run-IsCurrent, IsCurrent}
use gateway_hub.Prelude.{true, none, List, [], ◌∷◌}
use gateway_hub.Insights.Events.{
  press_events, answered, refresh, events_reply, raw, choose_view, choose_device, opened, Device,
  Event, run,
}
use gateway_hub.Timeline.{older}

abbrev other : Device
other = record { source = "modbus"; device_id = "pump"; expected = [] }

abbrev choices : List Event
choices =
    choose_view raw
    ∷ choose_device "rs485:meter:1"
    ∷ events_reply 90000 (answered none)
    ∷ refresh true 200000 (other ∷ [])
    ∷ press_events older
    ∷ []

run-IsCurrent_example : IsCurrent (run opened choices)
run-IsCurrent_example = run-IsCurrent choices
