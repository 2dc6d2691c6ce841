-- ===== src/Sensors/Trends/Sensitivity.antt =====
-- The sensitivity of the trends.
use gateway_hub.Sensors.Trends.{magnitude, stable, threshold_of, classify_slope}
use gateway_hub.Prelude.{
  arith, false, inl, inr, ◌==◌, ◌*◌, ltb, ℕ, Bool-cases, ◌≡◌, ◌≢◌, ◌≤◌, String, refl,
}
use gateway_hub.Prelude.Int.{ℤ}

below_false : (a t u c : ℕ) → u ≤ t → ltb a (t * c) ≡ false → ltb a (u * c) ≡ false
below_false a t u c h k = let less : u * c ≤ t * c = grind arith in ground (arith, less)

-- A higher sensitivity, which has a lower threshold, keeps every direction that a lower one shows.
pub classify_slope-sensitive :
    (low high : String) (slope current : ℤ)
    → threshold_of high ≤ threshold_of low
    → classify_slope low slope current ≢ stable
    → classify_slope high slope current ≡ classify_slope low slope current
unfolding classify_slope
classify_slope-sensitive low high slope current h moves =
    elim (Bool-cases (magnitude current == 0)) [
      | inl e ↦ rw e refl
      | inr e ↦
          elim (Bool-cases (ltb (100 * magnitude slope) (threshold_of low * magnitude current))) [
            | inl k ↦ absurd (moves (rw (e, k) refl))
            | inr k ↦
                let m =
                  below_false (100 * magnitude slope) (threshold_of low) (threshold_of high)
                    (magnitude current) h k in
                rw (e, k, m) refl
          ]
    ]
