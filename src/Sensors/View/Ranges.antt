-- ===== src/Sensors/View/Ranges.antt =====
-- The ranges that the sensor view requests.
use gateway_hub.Sensors.Selection.{
  choose_window, refresh, reply, focus, jump_latest, apply_dates, select_device, pick_reading,
  is_chart_due, selected_metric, press_tab, keys_text, request, is_configured, custom, fetch_chart,
  with_request, range_around, window_mode, latest_range, View, Event, Request, Range,
}
use gateway_hub.Sensors.Selection.Asked.{request_lem}
use gateway_hub.Incidents.Data.{answered, refused, failed}
use gateway_hub.Sensors.View.{
  keeps_selection, Anomaly, select_configured, refresh_chart, pick_metric_row, press_device_tab,
  set_event_metric, sv_refresh, focus_anomaly, apply_range, change_range, receive_chart, build_tabs,
  run, step,
}
use gateway_hub.Prelude.{
  List, ◌||◌, inr, ◌===◌, inl, Bool-cases, Bool, String, none, true, some, arith, ◌≡◌, Option, All,
  ℕ, [], ◌∷◌, refl,
}
use gateway_hub.Prelude.Int.{ℤ, pos, ltb_ℤ, -ℤ_parts}

-- A range of dates ends after it starts.
abbrev pub IsValid : Range → Type 0
IsValid window_mode = Unit
IsValid (custom from_ms to_ms) = ltb_ℤ from_ms to_ms ≡ true

latest_range-IsValid : (t : ℕ) → IsValid (latest_range t)
latest_range-IsValid t = ground (arith, -ℤ_parts (pos t) (pos 21600000))

range_around-IsValid : (t : ℕ) → IsValid (range_around t)
range_around-IsValid t = ground (arith, -ℤ_parts (pos t) (pos 900000))

module _ {S : Type 0} where
  -- The range of the view and those of all its requests are valid.
  pub record AreValid (v : View S) : Type 0 where
    pub current : IsValid v.range
    pub requested : All (λ r. IsValid r.range) v.sent

  requested-IsValid :
      (v : View S) (o : Option Request)
      → IsValid v.range
      → All (λ r. IsValid r.range) v.sent
      → ((r : Request) → o ≡ some r → r.range ≡ v.range)
      → AreValid (with_request o v)
  requested-IsValid v none h s same = record { current = h; requested = s }
  requested-IsValid v (some r) h s same = record {
    current = h;
    requested = (rw (same r refl) h, s);
  }

  fetch_chart-AreValid :
      (v : View S) → IsValid v.range → All (λ r. IsValid r.range) v.sent → AreValid (fetch_chart v)
  unfolding fetch_chart
  fetch_chart-AreValid v h s =
      requested-IsValid v (request v) h s (λ r e. (request_lem v r e).range_eq)

  press_tab-AreValid : (key : String) (v : View S) → AreValid v → AreValid (press_device_tab key v)
  unfolding press_device_tab
  press_tab-AreValid key v a = elim (Bool-cases (key === v.selected)) [
    | inl e ↦ rw e a
    | inr e ↦ rw e (fetch_chart-AreValid _ a.current a.requested)
  ]

  pick_reading-AreValid :
      (name : String) (v : View S) → AreValid v → AreValid (pick_metric_row name v)
  unfolding pick_metric_row
  pick_reading-AreValid name v a = elim (Bool-cases (name === selected_metric v)) [
    | inl e ↦ rw e a
    | inr e ↦ rw e (fetch_chart-AreValid _ a.current a.requested)
  ]

  change_range-AreValid :
      (range : Range) (v : View S)
      → IsValid range
      → All (λ r. IsValid r.range) v.sent
      → AreValid (change_range range v)
  unfolding change_range
  change_range-AreValid range v h s = fetch_chart-AreValid _ h s

  apply_range-AreValid : (f t : Option ℤ) (v : View S) → AreValid v → AreValid (apply_range f t v)
  unfolding apply_range
  apply_range-AreValid none t v a = a
  apply_range-AreValid (some f) none v a = a
  apply_range-AreValid (some f) (some t) v a = elim (Bool-cases (ltb_ℤ f t)) [
    | inl e ↦ rw e (change_range-AreValid (custom f t) v e a.requested)
    | inr e ↦ rw e a
  ]

  set_event_metric-sent : (m : Option String) (v : View S) → (set_event_metric m v).sent ≡ v.sent
  set_event_metric-sent none v = refl
  set_event_metric-sent (some name) v =
      elim (Bool-cases (name === "" || name === selected_metric v)) [
        | inl e ↦ rw e refl
        | inr e ↦ rw e refl
      ]

  focus-AreValid : (e : Anomaly) (v : View S) → AreValid v → AreValid (focus_anomaly e v)
  unfolding focus_anomaly
  focus-AreValid e v a =
      fetch_chart-AreValid (record (set_event_metric e.metric v) { range = range_around e.ts_ms })
        (range_around-IsValid e.ts_ms) (rw (set_event_metric-sent e.metric v) a.requested)

  select_device-AreValid :
      (key : String) (v : View S) → AreValid v → AreValid (select_configured key v)
  unfolding select_configured
  select_device-AreValid key v a = elim (Bool-cases (is_configured key v.configured)) [
    | inl e ↦ rw e (record { current = a.current; requested = a.requested })
    | inr e ↦ rw e a
  ]

  build_tabs-AreValid : (v : View S) → AreValid v → AreValid (build_tabs v)
  unfolding build_tabs
  build_tabs-AreValid v a = elim (Bool-cases (keys_text v.configured === v.tab_keys)) [
    | inl e ↦ rw e a
    | inr e ↦ elim (Bool-cases (keeps_selection v)) [
      | inl k ↦ rw (e, k) (record { current = a.current; requested = a.requested })
      | inr k ↦ rw (e, k) (record { current = a.current; requested = a.requested })
    ]
  ]

  refresh_chart-AreValid :
      (range : Range) (force : Bool) (now : ℕ) (v : View S)
      → AreValid v
      → AreValid (refresh_chart range force now v)
  unfolding refresh_chart
  refresh_chart-AreValid window_mode force now v a =
      elim (Bool-cases (is_chart_due force v.last_fetch now)) [
        | inl e ↦ rw e (fetch_chart-AreValid v a.current a.requested)
        | inr e ↦ rw e a
      ]
  refresh_chart-AreValid (custom f t) force now v a = elim (Bool-cases force) [
    | inl e ↦ rw e (fetch_chart-AreValid v a.current a.requested)
    | inr e ↦ rw e a
  ]

  sv_refresh-AreValid :
      (active force : Bool) (now : ℕ) (v : View S)
      → AreValid v
      → AreValid (sv_refresh active force now v)
  unfolding sv_refresh
  sv_refresh-AreValid active force now v a =
      let b = build_tabs-AreValid v a in
      elim (Bool-cases active) [
        | inl e ↦ rw e (refresh_chart-AreValid (build_tabs v).range force now (build_tabs v) b)
        | inr e ↦ rw e b
      ]

  step-AreValid : (v : View S) (e : Event S) → AreValid v → AreValid (step v e)
  unfolding step receive_chart
  step-AreValid v (press_tab key) a = press_tab-AreValid key v a
  step-AreValid v (pick_reading name) a = pick_reading-AreValid name v a
  step-AreValid v (choose_window w) a =
      change_range-AreValid window_mode (record v { window = w }) tt a.requested
  step-AreValid v (select_device key) a = select_device-AreValid key v a
  step-AreValid v (apply_dates f t) a = apply_range-AreValid f t v a
  step-AreValid v (jump_latest last_ms) a =
      change_range-AreValid (latest_range last_ms) v (latest_range-IsValid last_ms) a.requested
  step-AreValid v (focus e) a = focus-AreValid e v a
  step-AreValid v (reply now metric failed) a = a
  step-AreValid v (reply now metric refused) a = a
  step-AreValid v (reply now metric (answered b)) a = elim (Bool-cases b.history_ok) [
    | inl e ↦ rw e (record { current = a.current; requested = a.requested })
    | inr e ↦ rw e a
  ]
  step-AreValid v (refresh active force now configured) a =
      sv_refresh-AreValid active force now (record v { configured = configured })
        (record { current = a.current; requested = a.requested })

  run-from : (v : View S) (events : List (Event S)) → AreValid v → AreValid (run v events)
  unfolding run
  run-from v [] a = a
  run-from v (e ∷ events) a = run-from (step v e) events (step-AreValid v e a)

  -- From a view without requests in a window of time: whatever presses, dates, jumps, answers and
  -- timers follow, the range of the view and the ranges of all its requests end after they start.
  pub run-AreValid :
      (v : View S) (events : List (Event S))
      → v.range ≡ window_mode
      → v.sent ≡ []
      → AreValid (run v events)
  run-AreValid v events w s = run-from v events (record { current = rw w tt; requested = rw s tt })
