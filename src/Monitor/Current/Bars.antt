-- ===== src/Monitor/Current/Bars.antt =====
-- The bars of the monitor page.
use gateway_hub.Monitor.Current.{
  percent_of, MonitorPage, Metrics, disk_kpi, temp_percent, memory_kpi, whole, cpu_kpi,
  telemetry_unavailable, Kpi, temp_kpi, apply_current,
}
use gateway_hub.Monitor.Figures.{clamped, is_above, is_below, set_kpi_bar, Fraction, Bar}
use gateway_hub.Prelude.{
  arith, ◌*◌, none, Option, ◌<◌, ◌≤◌, some, inr, false, inl, Bool-cases, ◌≡◌, String, Bool, ◌&&◌,
  true, ℕ, refl,
}
use gateway_hub.Prelude.Int.{ℤ, pos, ltb_ℤ}

-- A width between 0 and 100 percent.
pub record IsWithin (b : Bar) : Type 0 where
  pub not_below : is_below b.width 0 ≡ false
  pub not_above : is_above b.width 100 ≡ false

clamped-within :
    (f : Fraction) → (is_below (clamped f) 0 ≡ false) × (is_above (clamped f) 100 ≡ false)
clamped-within f = elim (Bool-cases (is_below f 0)) [
  | inl e ↦ rw e (refl, refl)
  | inr e ↦ elim (Bool-cases (is_above f 100)) [
    | inl k ↦ rw (e, k) (refl, refl)
    | inr k ↦ rw (e, k) (e, k)
  ]
]

set_kpi_bar-IsWithin : (t : Bool) (f : Fraction) (b : Bar) → IsWithin (set_kpi_bar t f b)
unfolding set_kpi_bar
set_kpi_bar-IsWithin true f b =
    let c = clamped-within f in record { not_below = c.0; not_above = c.1 }
set_kpi_bar-IsWithin false f b =
    let c = clamped-within f in record { not_below = c.0; not_above = c.1 }

-- The bar of the temperature has at most one colour.
pub HasOneColour : Bar → Type 0
HasOneColour b = (b.is_warm && b.is_hot) ≡ false

set_kpi_bar-colour : (f : Fraction) (b : Bar) → HasOneColour (set_kpi_bar true f b)
unfolding set_kpi_bar HasOneColour
set_kpi_bar-colour f b = elim (Bool-cases (is_below f 70)) [
  | inl e ↦ elim (Bool-cases (is_below f 50)) [ inl k ↦ rw (e, k) refl | inr k ↦ rw (e, k) refl ]
  | inr e ↦ elim (Bool-cases (is_below f 50)) [ inl k ↦ rw (e, k) refl | inr k ↦ rw (e, k) refl ]
]

module _ (fixed1 fixed2 grouped hex : ℕ → String) (fixed1_ℤ : ℤ → String) where
  temp_kpi-IsWithin :
      (t : Option ℤ) (k : Kpi)
      → let seen = temp_kpi fixed1 fixed2 grouped hex fixed1_ℤ t k in
        IsWithin seen.bar × HasOneColour seen.bar
  unfolding temp_kpi
  temp_kpi-IsWithin none k =
      (set_kpi_bar-IsWithin true (whole 0) k.bar, set_kpi_bar-colour (whole 0) k.bar)
  temp_kpi-IsWithin (some t) k =
      (set_kpi_bar-IsWithin true (temp_percent t) k.bar, set_kpi_bar-colour (temp_percent t) k.bar)

  -- Whatever metrics arrive, or none: the bars of the page are between 0 and 100 percent wide, and
  -- the bar of the temperature is never warm and hot at once.
  pub apply_current-IsWithin :
      (m : Option Metrics) (p : MonitorPage)
      → let seen = apply_current fixed1 fixed2 grouped hex fixed1_ℤ m p in
        IsWithin seen.cpu.bar
        × IsWithin seen.memory.bar
        × IsWithin seen.temp.bar
        × IsWithin seen.disk.bar
        × HasOneColour seen.temp.bar
  unfolding apply_current telemetry_unavailable cpu_kpi memory_kpi temp_kpi disk_kpi
  apply_current-IsWithin none p = (
    set_kpi_bar-IsWithin false (whole 0) p.cpu.bar,
    set_kpi_bar-IsWithin false (whole 0) p.memory.bar,
    set_kpi_bar-IsWithin true (whole 0) p.temp.bar,
    set_kpi_bar-IsWithin false (whole 0) p.disk.bar,
    set_kpi_bar-colour (whole 0) p.temp.bar,
  )
  apply_current-IsWithin (some m) p =
      let t = temp_kpi-IsWithin m.temp_tenths p.temp in
      (
        set_kpi_bar-IsWithin false (percent_of m.cpu_tenths) p.cpu.bar,
        set_kpi_bar-IsWithin false (percent_of m.mem_tenths) p.memory.bar,
        t.0,
        set_kpi_bar-IsWithin false (percent_of m.disk_tenths) p.disk.bar,
        t.1,
      )

  -- From 59.5 degrees up to 70, the bar of the temperature is hot, while the line below the figure
  -- says that it is warm.
  pub temp_kpi-disagrees :
      (t : ℕ) (k : Kpi)
      → 595 ≤ t
      → t < 700
      → let seen = temp_kpi fixed1 fixed2 grouped hex fixed1_ℤ (some (pos t)) k in
        (seen.bar.is_hot ≡ true) × (seen.sub ≡ "Warm, monitor load")
  unfolding temp_kpi set_kpi_bar
  temp_kpi-disagrees t k h l =
      let f : Fraction = record { top = pos (t * 100); below = 849 } in
      let small : is_above f 100 ≡ false = ground arith in
      let hot : is_below f 70 ≡ false = ground arith in
      let cool : ltb_ℤ (pos t) (pos 500) ≡ false = ground arith in
      let warm : ltb_ℤ (pos t) (pos 700) ≡ true = ground arith in
      (rw (small, hot) refl, rw (cool, warm) refl)
