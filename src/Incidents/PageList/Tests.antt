-- ===== src/Incidents/PageList/Tests.antt =====
-- Nine incidents, of which a list can show eight.
use gateway_hub.Incidents.PageList.{
  press, inc_load, es_inc_load, answer, nothing_loaded, fw_inc_load, Answer, Event, run,
}
use gateway_hub.Incidents.PageList.Stuck.{pages_unreachable, ShowsFirst}
use gateway_hub.Prelude.{some, Option, true, map, List, String, [], ◌∷◌}
use gateway_hub.Incidents.Data.{Incident, Response, answered}

abbrev nth : String → Incident
nth ref = record { ref = ref; status = "open"; ongoing = true; started_ms = 5 }

abbrev nine : List Incident
nine = map nth ("1" ∷ "2" ∷ "3" ∷ "4" ∷ "5" ∷ "6" ∷ "7" ∷ "8" ∷ "9" ∷ [])

abbrev presses : List (Event (Response (Option (List Incident))))
presses = answer (answered (some nine)) ∷ press 3 ∷ press 2 ∷ []

abbrev insights_presses : List (Event (Response Answer))
insights_presses =
    answer (answered (record { incidents = some nine; open_count = some 9; window_count = some 9 }))
    ∷ press 3
    ∷ []

pages_unreachable_example :
    ShowsFirst (run fw_inc_load nothing_loaded presses)
    × ShowsFirst (run es_inc_load nothing_loaded presses)
    × ShowsFirst (run inc_load nothing_loaded insights_presses)
pages_unreachable_example = pages_unreachable presses presses insights_presses
