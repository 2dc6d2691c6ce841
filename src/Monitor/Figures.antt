-- ===== src/Monitor/Figures.antt =====
-- What the live figures of the monitor page are made of in web_console/static/js/app.js: exact
-- fractions, `setKpiBar`, and the formats `fmtBytes`, `fmtMb` and `fmtDuration`.
use gateway_hub.Format.{seconds, minutes, hours_minutes, days_hours, Span}
use gateway_hub.Prelude.{
  to_string, ltb, ◌+◌, template, ◌%◌, ◌&&◌, suc, ◌/◌, leb, String, ◌*◌, not, ℕ, Bool, if◌then◌else◌,
  [], ◌∷◌,
}
use gateway_hub.Prelude.Int.{ℤ, pos, ltb_ℤ}

-- A fraction with a positive denominator, `below` + 1.
pub record Fraction : Type 0 where
  pub top : ℤ
  pub below : ℕ

abbrev pub of_tenths : ℤ → Fraction
of_tenths n = record { top = n; below = 9 }

-- Whether a fraction is less than a whole number.
abbrev pub is_below : Fraction → ℕ → Bool
is_below f n = ltb_ℤ f.top (pos (n * suc f.below))

abbrev pub is_above : Fraction → ℕ → Bool
is_above f n = ltb_ℤ (pos (n * suc f.below)) f.top

abbrev pub whole : ℕ → Fraction
whole n = record { top = pos n; below = 0 }

-- `Math.min(100, f)` and `Math.min(100, Math.max(0, f))`
abbrev pub at_most_hundred : Fraction → Fraction
at_most_hundred f = if is_above f 100 then whole 100 else f

abbrev pub clamped : Fraction → Fraction
clamped f = at_most_hundred (if is_below f 0 then whole 0 else f)

pub record Bar : Type 0 where
  pub width : Fraction
  pub is_warm : Bool
  pub is_hot : Bool

-- `setKpiBar`; only the bar of the temperature has colours.
unfoldable pub set_kpi_bar : Bool → Fraction → Bar → Bar
set_kpi_bar is_temp pct bar =
    let sized = record bar { width = clamped pct } in
    if is_temp
    then record sized {
      is_warm = not (is_below pct 50) && is_below pct 70;
      is_hot = not (is_below pct 70);
    }
    else sized

-- `fmtBytes`, `fmtMb` and `fmtDuration` of this page.
unfoldable pub fmt_bytes : (ℕ → String) → ℕ → String
fmt_bytes fixed1 b =
    if leb 1073741824 b
    then template (fixed1 ((20 * b + 1073741824) / (2 * 1073741824)) ∷ " GB" ∷ [])
    else if leb 1048576 b
    then template (to_string ((2 * b + 1048576) / (2 * 1048576)) ∷ " MB" ∷ [])
    else template (to_string ((b + 512) / 1024) ∷ " KB" ∷ [])

-- A whole number of megabytes.
unfoldable pub fmt_mb : (ℕ → String) → (ℕ → String) → ℕ → String
fmt_mb fixed1 grouped mb =
    if leb 1024 mb
    then template (fixed1 ((20 * mb + 1024) / 2048) ∷ " GB" ∷ [])
    else template (grouped mb ∷ " MB" ∷ [])

unfoldable pub fmt_duration : ℕ → Span
fmt_duration total =
    let d = total / 86400 in
    let h = total % 86400 / 3600 in
    let m = total % 3600 / 60 in
    if ltb 0 d
    then days_hours d h
    else if ltb 0 h
    then hours_minutes h m
    else if ltb 0 m
    then minutes m
    else seconds total
