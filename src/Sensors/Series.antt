-- ===== src/Sensors/Series.antt =====
-- The series behind the chart of the sensor view: `svSeriesValueAt`, which anchors a marker to the
-- line, and `svFullRange`. Times are in milliseconds; a bucket without a reading is `none`.
-- The browser's floating-point numbers are a parameter: `apart t at` is the bit pattern of the double
-- `Math.abs(t / 1000 - at / 1000)`, and patterns of doubles that are not negative are ordered as these
-- are.
pub mod Nearest
use gateway_hub.Prelude.{
  ◌-◌, ltb, true, leb, some, if◌then◌else◌, none, Bool, ℕ, Option, List, [], ◌∷◌,
}

pub record Sample (V : Type 0) : Type 0 where
  pub time : ℕ
  pub avg : Option V

-- The best value so far with its distance; none is `null` with `Infinity`.
abbrev pub Best : Type 0 → Type 0
Best V = Option (V × ℕ)

module _ {V : Type 0} where
  abbrev pub beats : ℕ → Option (V × ℕ) → Bool
  beats d none = true
  beats d (some (v, e)) = ltb d e

  abbrev pub better : (ℕ → ℕ → ℕ) → ℕ → Sample V → Best V → Best V
  better apart at s best = elim s.avg [
    | none ↦ best
    | some v ↦ if beats (apart s.time at) best then some (v, apart s.time at) else best
  ]

  unfoldable pub nearest_from : (ℕ → ℕ → ℕ) → ℕ → List (Sample V) → Best V → Best V
  nearest_from apart at [] best = best
  nearest_from apart at (s ∷ samples) best = nearest_from apart at samples (better apart at s best)

  abbrev value_of : Best V → Option V
  value_of none = none
  value_of (some (v, d)) = some v

  unfoldable pub series_value_at : (ℕ → ℕ → ℕ) → ℕ → List (Sample V) → Option V
  unfolding nearest_from
  series_value_at apart at samples = value_of (nearest_from apart at samples none)

  abbrev last_time : ℕ → List (Sample V) → ℕ
  last_time t [] = t
  last_time t (s ∷ samples) = last_time s.time samples

  -- The first and the last time of a series of two samples or more.
  unfoldable pub full_range : List (Sample V) → Option (ℕ × ℕ)
  full_range [] = none
  full_range (s ∷ []) = none
  full_range (s ∷ t ∷ samples) = some (s.time, last_time t.time samples)
