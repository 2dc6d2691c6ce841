-- ===== src/Charts.antt =====
-- Pan and zoom of the charts in web_console/static/js/app.js: `wheelPanZoom`, `svPanZoomPlugin` and
-- `esPanZoomPlugin`, which are the same code. Times are whole numbers of a unit that a zoom makes five
-- or four times smaller, so that its factors 0.8 and 1.25 are exact.
pub mod Inside
mod Tests
use mathlib.Core.Bool.{false}
use gateway_hub.Prelude.{[], ◌∷◌, true, List, ◌+◌, none, some, leb, Option, Bool, if◌then◌else◌, ℕ}
use gateway_hub.Prelude.Int.{neg_part, pos_part, ltb_ℤ, ◌+ℤ◌, ◌-ℤ◌, ℤ}

pub record Window : Type 0 where
  pub lo : ℤ
  pub hi : ℤ

-- The loaded range, if there is one, and the range that is shown.
pub record Chart : Type 0 where
  pub full : Option Window
  pub shown : Window

abbrev pub leb_ℤ : ℤ → ℤ → Bool
leb_ℤ a b = leb (pos_part a + neg_part b) (pos_part b + neg_part a)

abbrev pub push_up : Window → ℤ → Window → Window
push_up f range v = if ltb_ℤ v.lo f.lo then record { lo = f.lo; hi = f.lo +ℤ range } else v

abbrev pub push_down : Window → ℤ → Window → Window
push_down f range v = if ltb_ℤ f.hi v.hi then record { lo = f.hi -ℤ range; hi = f.hi } else v

unfoldable pub clamp_to_full : Option Window → Window → Window
clamp_to_full none v = v
clamp_to_full (some f) v =
    let range = v.hi -ℤ v.lo in
    if leb_ℤ (f.hi -ℤ f.lo) range then f else push_down f range (push_up f range v)

abbrev pub times_four : ℤ → ℤ
times_four x = x +ℤ x +ℤ x +ℤ x

abbrev pub times_five : ℤ → ℤ
times_five x = times_four x +ℤ x

abbrev pub scaled : (ℤ → ℤ) → Option Window → Option Window
scaled times none = none
scaled times (some f) = some (record { lo = times f.lo; hi = times f.hi })

-- With the cursor at c, `c - (c - min) / range * (range * factor)` is (c + 4 min) / 5 for 0.8 and
-- (5 min - c) / 4 for 1.25, and likewise for max.
unfoldable pub zoom_in : ℤ → Chart → Chart
unfolding clamp_to_full
zoom_in c k =
    let full = scaled times_five k.full in
    record {
      full = full;
      shown =
          clamp_to_full full
            (record { lo = c +ℤ times_four k.shown.lo; hi = c +ℤ times_four k.shown.hi });
    }

unfoldable pub zoom_out : ℤ → Chart → Chart
unfolding clamp_to_full
zoom_out c k =
    let full = scaled times_four k.full in
    record {
      full = full;
      shown =
          clamp_to_full full
            (record { lo = times_five k.shown.lo -ℤ c; hi = times_five k.shown.hi -ℤ c });
    }

-- A drag by a distance from where it began, with the window of that time.
unfoldable pub drag : Window → ℤ → Chart → Chart
unfolding clamp_to_full
drag start d k = record k {
  shown = clamp_to_full k.full (record { lo = start.lo -ℤ d; hi = start.hi -ℤ d });
}

abbrev pub double_clicked : Option Window → Window → Window
double_clicked none v = v
double_clicked (some f) v = f

unfoldable pub double_click : Chart → Chart
double_click k = record k { shown = double_clicked k.full k.shown }

pub data Event : Type 0 where
  wheel_turned : Bool → ℤ → Event
  dragged : Window → ℤ → Event
  double_clicked_on : Event

unfoldable pub step : Chart → Event → Chart
unfolding zoom_in zoom_out drag double_click
step k (wheel_turned true c) = zoom_in c k
step k (wheel_turned false c) = zoom_out c k
step k (dragged start d) = drag start d k
step k double_clicked_on = double_click k

unfoldable pub run : Chart → List Event → Chart
unfolding step
run k [] = k
run k (e ∷ events) = run (step k e) events
