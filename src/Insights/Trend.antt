-- ===== src/Insights/Trend.antt =====
-- `computeTrend` of web_console/static/js/app.js: the samples are whole numbers of some small unit,
-- and averages are compared as exact fractions.
use gateway_hub.Prelude.{
  zero, ap, suc, map, ℕ, ◌+◌, ◌-◌, ◌*◌, ◌<◌, ◌≡◌, refl, List, [], ◌∷◌, length, take, drop, ltb,
  ◌==◌, if◌then◌else◌, arith, length-take, length-drop,
}
use gateway_hub.Prelude.Int.{ℤ, pos, negsuc, pos_part, neg_part}
use gateway_hub.Incidents.Paging.{slice}

pub data Trend : Type 0 where
  up down flat : Trend

abbrev pub sum_up : List ℤ → ℕ
sum_up [] = 0
sum_up (x ∷ xs) = pos_part x + sum_up xs

abbrev pub sum_down : List ℤ → ℕ
sum_down [] = 0
sum_down (x ∷ xs) = neg_part x + sum_down xs

-- With R the sum of five samples and E that of n earlier ones, the change R / 5 - E / n is compared
-- with 3 % of |E / n|, or of 1 where that is 0; both sides are multiplied by 500 n.
abbrev pub margin : ℕ → ℕ → ℕ → ℕ
margin n e_up e_down =
    let size = (e_up - e_down) + (e_down - e_up) in if size == 0 then 15 * n else 15 * size

unfoldable pub trend_of : ℕ → ℕ → ℕ → ℕ → ℕ → Trend
trend_of n r_up r_down e_up e_down =
    let rise = 100 * n * r_up + 500 * e_down in
    let fall = 100 * n * r_down + 500 * e_up in
    if ltb (fall + margin n e_up e_down) rise
    then up
    else if ltb (rise + margin n e_up e_down) fall
    then down
    else flat

-- The last five samples, and the five that stand fifteen before the end.
unfoldable pub recent : List ℤ → List ℤ
recent values = drop (length values - 5) values

unfoldable pub earlier : List ℤ → List ℤ
earlier values = slice (length values - 20) (length values - 15) values

unfoldable pub trend_from : ℕ → List ℤ → List ℤ → Trend
unfolding trend_of
trend_from count r e =
    if ltb count 10
    then flat
    else if ltb (length e) 3
    then flat
    else trend_of (length e) (sum_up r) (sum_down r) (sum_up e) (sum_down e)

unfoldable pub compute_trend : List ℤ → Trend
unfolding trend_from recent earlier
compute_trend values = trend_from (length values) (recent values) (earlier values)

length-earlier : (values : List ℤ) → length values < 18 → length (earlier values) < 3
unfolding earlier
length-earlier values h = omega (
  arith,
  length-take (length values - 15 - (length values - 20)) (drop (length values - 20) values),
  length-drop (length values - 20) values,
)

-- Fewer than eighteen samples show no trend, although the code asks for ten only.
pub compute_trend_short : (values : List ℤ) → length values < 18 → compute_trend values ≡ flat
unfolding compute_trend trend_from
compute_trend_short values h = ground (arith, length-earlier values h)

abbrev pub opposite : Trend → Trend
opposite up = down
opposite down = up
opposite flat = flat

abbrev pub mirror : ℤ → ℤ
mirror (pos n) = if n == 0 then pos 0 else negsuc (n - 1)
mirror (negsuc n) = pos (n + 1)

trend_of-opposite : (n ru rd eu ed : ℕ) → trend_of n rd ru ed eu ≡ opposite (trend_of n ru rd eu ed)
unfolding trend_of
trend_of-opposite n ru rd eu ed = ground arith

sum_up-mirror : (xs : List ℤ) → sum_up (map mirror xs) ≡ sum_down xs
sum_up-mirror [] = refl
sum_up-mirror (x ∷ xs) = ground (arith, sum_up-mirror xs)

sum_down-mirror : (xs : List ℤ) → sum_down (map mirror xs) ≡ sum_up xs
sum_down-mirror [] = refl
sum_down-mirror (x ∷ xs) = ground (arith, sum_down-mirror xs)

length-mirror : (xs : List ℤ) → length (map mirror xs) ≡ length xs
length-mirror [] = refl
length-mirror (x ∷ xs) = omega (arith, length-mirror xs)

drop-mirror : (n : ℕ) (xs : List ℤ) → drop n (map mirror xs) ≡ map mirror (drop n xs)
drop-mirror zero xs = refl
drop-mirror (suc n) [] = refl
drop-mirror (suc n) (x ∷ xs) = drop-mirror n xs

take-mirror : (n : ℕ) (xs : List ℤ) → take n (map mirror xs) ≡ map mirror (take n xs)
take-mirror zero xs = refl
take-mirror (suc n) [] = refl
take-mirror (suc n) (x ∷ xs) = ap (mirror x ∷◌) (take-mirror n xs)

earlier-mirror : (xs : List ℤ) → earlier (map mirror xs) ≡ map mirror (earlier xs)
unfolding earlier
earlier-mirror xs =
    rw (length-mirror xs, drop-mirror (length xs - 20) xs)
      (take-mirror (length xs - 15 - (length xs - 20)) (drop (length xs - 20) xs))

recent-mirror : (xs : List ℤ) → recent (map mirror xs) ≡ map mirror (recent xs)
unfolding recent
recent-mirror xs = rw (length-mirror xs) (drop-mirror (length xs - 5) xs)

trend_from-mirror :
    (n : ℕ) (r e : List ℤ)
    → trend_from n (map mirror r) (map mirror e) ≡ opposite (trend_from n r e)
unfolding trend_from
trend_from-mirror n r e =
    rw (length-mirror e, sum_up-mirror r, sum_down-mirror r, sum_up-mirror e, sum_down-mirror e)
      (ground (arith, trend_of-opposite (length e) (sum_up r) (sum_down r) (sum_up e) (sum_down e)))

compute_trend_lem :
    (values : List ℤ)
    → compute_trend values ≡ trend_from (length values) (recent values) (earlier values)
unfolding compute_trend
compute_trend_lem values = refl

-- Samples of the opposite sign show the opposite trend: neither direction is favoured.
pub compute_trend-mirror :
    (values : List ℤ) → compute_trend (map mirror values) ≡ opposite (compute_trend values)
compute_trend-mirror values =
    rw
      (
        compute_trend_lem (map mirror values),
        compute_trend_lem values,
        length-mirror values,
        earlier-mirror values,
        recent-mirror values,
      )
      (trend_from-mirror (length values) (recent values) (earlier values))
