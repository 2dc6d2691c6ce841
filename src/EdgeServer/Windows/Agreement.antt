-- ===== src/EdgeServer/Windows/Agreement.antt =====
-- The windows of the Edge Server page in web_console/static/js/app.js, compared with one another.
use gateway_hub.Prelude.{
  ℕ, ◌+◌, ◌*◌, ◌≤◌, ◌<◌, ◌≡◌, refl, false, Option, none, some, String, ◌===◌, or_text, arith,
  Bool-cases, inl, inr,
}
use gateway_hub.Prelude.Int.{pos, sub_ℕ}
use gateway_hub.EdgeServer.Windows.{
  Browser, minutes_of, label_of, LiveLabel, last_minutes, last_hours, protocol_window_minutes,
  live_window_info, history_window_info, alert_window_info, range_duration,
}

-- The label tells the minutes, or the hours to the nearest.
abbrev pub Tells : LiveLabel → ℕ → Type 0
Tells (last_minutes n) m = n ≡ m
Tells (last_hours h) m = (60 * h ≤ m + 30) × (m < 60 * h + 30)

minutes_bounds : (n : Option ℕ) → (5 ≤ minutes_of n) × (minutes_of n ≤ 1440)
unfolding minutes_of
minutes_bounds none = ground arith
minutes_bounds (some n) = ground arith

value_bounds :
    (b : Browser) (value : Option String)
    → (5 ≤ protocol_window_minutes b value) × (protocol_window_minutes b value ≤ 1440)
unfolding protocol_window_minutes
value_bounds b value = minutes_bounds (b.number (or_text value "60"))

live_label : (m : ℕ) → Tells (label_of m) m
live_label m = ground arith

-- Whatever the menu holds, a live window is five minutes to a day long, ends now, starts as many
-- minutes earlier as it says, and its label tells that number.
pub live_window :
    (b : Browser) (now : ℕ) (value : Option String)
    → let w = live_window_info b now value in
      ((5 ≤ w.minutes) × (w.minutes ≤ 1440))
      × (w.max_ms ≡ pos now)
      × (w.min_ms ≡ sub_ℕ now (w.minutes * 60000))
      × Tells w.label w.minutes
unfolding live_window_info
live_window b now value =
    (value_bounds b value, refl, refl, live_label (protocol_window_minutes b value))

-- For the same choice of range, other than a day or an hour, the history and the alerts show the
-- same window of time, under the same label, whatever their other filters are.
pub windows_agree :
    (b : Browser) (now : ℕ) (range protocol group kind device : Option String) (day hour : String)
    → (or_text range "30d" === "hour") ≡ false
    → (or_text range "30d" === "day") ≡ false
    → let h = history_window_info b now range protocol day hour in
      let a = alert_window_info b now range group kind device in
      (h.label ≡ a.label)
      × (h.start_ms ≡ a.start_ms)
      × (h.end_ms ≡ a.end_ms)
      × (h.relative_start ≡ a.relative_start)
      × (h.time_mode ≡ a.time_mode)
unfolding history_window_info alert_window_info
windows_agree b now range protocol group kind device day hour h d =
    elim (Bool-cases (or_text range "30d" === "all")) [
      | inl e ↦ rw (h, d, e) (refl, refl, refl, refl, refl)
      | inr e ↦ rw (h, d, e) (refl, refl, refl, refl, refl)
    ]

-- A history window that ends now starts as long ago as its range says, and has at most 1440
-- buckets.
pub history_buckets :
    (b : Browser) (now : ℕ) (range protocol : Option String) (day hour : String)
    → (or_text range "30d" === "hour") ≡ false
    → (or_text range "30d" === "day") ≡ false
    → (or_text range "30d" === "all") ≡ false
    → let h = history_window_info b now range protocol day hour in
      (n : ℕ) × (h.bucket_ms ≡ some n)
      × (h.end_ms ≡ some (pos now))
      × (h.start_ms ≡ some (sub_ℕ now (range_duration (or_text range "30d"))))
      × (range_duration (or_text range "30d") ≤ 1440 * n)
unfolding history_window_info
history_buckets b now range protocol day hour h d a =
    elim (Bool-cases (or_text range "30d" === "24h")) [
      | inl e ↦ rw (h, d, a, e) (60000, refl, refl, refl, omega arith)
      | inr e ↦ rw (h, d, a, e) (3600000, refl, refl, refl, ground arith)
    ]
