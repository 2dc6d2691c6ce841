-- ===== src/Charts/Tests.antt =====
-- The pan and zoom of a chart at a concrete window.
use gateway_hub.Prelude.Int.{pos}
use gateway_hub.Charts.Inside.{run-IsShownIn, IsShownIn}
use gateway_hub.Charts.{dragged, wheel_turned, Event, run, Window, Chart}
use gateway_hub.Prelude.{[], false, ◌∷◌, true, arith, some, List}

abbrev loaded : Window
loaded = record { lo = pos 0; hi = pos 100 }

abbrev middle : Window
middle = record { lo = pos 40; hi = pos 60 }

abbrev chart : Chart
chart = record { full = some loaded; shown = middle }

abbrev moves : List Event
moves = wheel_turned true (pos 50) ∷ dragged middle (pos 70) ∷ wheel_turned false (pos 0) ∷ []

run-IsShownIn_example : IsShownIn (run chart moves).full (run chart moves).shown
run-IsShownIn_example = run-IsShownIn chart moves (omega arith, omega arith)
