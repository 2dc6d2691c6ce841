-- ===== src/Charts/Inside.antt =====
-- The window of a chart in web_console/static/js/app.js stays in the loaded range.
use gateway_hub.Prelude.Int.{+ℤ_parts, -ℤ_parts, ◌-ℤ◌, ◌≤ℤ◌}
use gateway_hub.Charts.{
  double_clicked_on, dragged, times_four, times_five, scaled, wheel_turned, ◌∷◌, double_click,
  Event, neg_part, zoom_out, Chart, double_clicked, zoom_in, some, step, pos_part, run, ℤ, drag,
  clamp_to_full, push_up, push_down, leb_ℤ, Window,
}
use gateway_hub.Prelude.{
  true, [], inl, inr, Bool-cases, none, List, ◌+◌, some, Option, arith, false, ◌≡◌,
}

abbrev pub IsInside : Window → Window → Type 0
IsInside f v = (f.lo ≤ℤ v.lo) × (v.hi ≤ℤ f.hi)

narrow :
    (f v : Window)
    → leb_ℤ (f.hi -ℤ f.lo) (v.hi -ℤ v.lo) ≡ false
    → IsInside f (push_down f (v.hi -ℤ v.lo) (push_up f (v.hi -ℤ v.lo) v))
narrow f v h = ground (
  arith,
  h,
  -ℤ_parts v.hi v.lo,
  -ℤ_parts f.hi f.lo,
  +ℤ_parts f.lo (v.hi -ℤ v.lo),
  -ℤ_parts f.hi (v.hi -ℤ v.lo),
)

abbrev pub IsShownIn : Option Window → Window → Type 0
IsShownIn none v = Unit
IsShownIn (some f) v = IsInside f v

clamp_to_full-IsShownIn :
    (full : Option Window) (v : Window) → IsShownIn full (clamp_to_full full v)
unfolding clamp_to_full
clamp_to_full-IsShownIn none v = tt
clamp_to_full-IsShownIn (some f) v = elim (Bool-cases (leb_ℤ (f.hi -ℤ f.lo) (v.hi -ℤ v.lo))) [
  | inl e ↦ rw e (omega arith, omega arith)
  | inr e ↦ rw e (narrow f v e)
]

-- Two windows are equally wide.
abbrev pub SameWidth : Window → Window → Type 0
SameWidth v w =
    pos_part v.hi + neg_part v.lo + pos_part w.lo + neg_part w.hi
    ≡ pos_part w.hi + neg_part w.lo + pos_part v.lo + neg_part v.hi

narrow-SameWidth :
    (f v : Window) → SameWidth (push_down f (v.hi -ℤ v.lo) (push_up f (v.hi -ℤ v.lo) v)) v
narrow-SameWidth f v =
    ground (arith, -ℤ_parts v.hi v.lo, +ℤ_parts f.lo (v.hi -ℤ v.lo), -ℤ_parts f.hi (v.hi -ℤ v.lo))

clamp_to_full-SameWidth :
    (f v : Window)
    → leb_ℤ (f.hi -ℤ f.lo) (v.hi -ℤ v.lo) ≡ false
    → SameWidth (clamp_to_full (some f) v) v
unfolding clamp_to_full
clamp_to_full-SameWidth f v h = rw h (narrow-SameWidth f v)

double_click-IsShownIn :
    (full : Option Window) (v : Window) → IsShownIn full (double_clicked full v)
double_click-IsShownIn none v = tt
double_click-IsShownIn (some f) v = (omega arith, omega arith)

step-IsShownIn : (k : Chart) (e : Event) → IsShownIn (step k e).full (step k e).shown
unfolding step zoom_in zoom_out drag double_click
step-IsShownIn k (wheel_turned true c) = clamp_to_full-IsShownIn (scaled times_five k.full) _
step-IsShownIn k (wheel_turned false c) = clamp_to_full-IsShownIn (scaled times_four k.full) _
step-IsShownIn k (dragged start d) = clamp_to_full-IsShownIn k.full _
step-IsShownIn k double_clicked_on = double_click-IsShownIn k.full k.shown

-- However a chart is zoomed, dragged and reset, its window stays in the range that is loaded, if it
-- was in it.
pub run-IsShownIn :
    (k : Chart) (events : List Event)
    → IsShownIn k.full k.shown
    → IsShownIn (run k events).full (run k events).shown
unfolding run
run-IsShownIn k [] h = h
run-IsShownIn k (e ∷ events) h = run-IsShownIn (step k e) events (step-IsShownIn k e)

shifted : (v : Window) (d : ℤ) → SameWidth (record { lo = v.lo -ℤ d; hi = v.hi -ℤ d }) v
shifted v d = omega (arith, -ℤ_parts v.lo d, -ℤ_parts v.hi d)

-- A drag of a window that, moved, is narrower than the loaded range keeps the window's width.
pub drag-SameWidth :
    (start f : Window) (d : ℤ) (k : Chart)
    → k.full ≡ some f
    → leb_ℤ (f.hi -ℤ f.lo) ((start.hi -ℤ d) -ℤ (start.lo -ℤ d)) ≡ false
    → SameWidth (drag start d k).shown start
unfolding drag
drag-SameWidth start f d k e h =
    let v : Window = record { lo = start.lo -ℤ d; hi = start.hi -ℤ d } in
    rw e (omega (arith, clamp_to_full-SameWidth f v h, shifted start d))
