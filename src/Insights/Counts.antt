-- ===== src/Insights/Counts.antt =====
-- What the cards and the strip of key figures of the insights page in web_console/static/js/app.js count.
use gateway_hub.Prelude.{
  lookup_in, ===-other, ltb→lt, ℕ, ◌+◌, ◌*◌, ◌/◌, ◌≤◌, ◌<◌, ◌≡◌, refl, Bool, true, ◌&&◌, Option,
  none, some, String, List, [], ◌∷◌, length, All, ltb, ◌===◌, truthy, if◌then◌else◌, arith,
  Bool-cases, inl, inr,
}
use gateway_hub.Insights.Data.{Reading, percent}
use gateway_hub.Insights.Cards.{count_if, Health, counted_quality, count_reading, count_health}
use gateway_hub.Insights.Figures.{is_fresh, count_fresh}

pub one_quality :
    (q : String) (a b c : ℕ)
    → count_if (q === "good") a + count_if (q === "stale") b + count_if (q === "error") c
      ≤ a + b + c + 1
one_quality q a b c =
    ground
      (arith, ===-other q "good" "stale", ===-other q "good" "error", ===-other q "stale" "error")

pub count_reading_bounds :
    (e : Bool) (r : Option Reading) (h : Health)
    → let g = count_reading e r h in
      (g.good + g.stale + g.error + h.total ≤ g.total + (h.good + h.stale + h.error))
      × (g.total ≤ h.total + 1)
count_reading_bounds e none h = ground arith
count_reading_bounds e (some r) h =
    omega (arith, one_quality (counted_quality r) h.good h.stale h.error)

-- What a card counts: no more than is expected, each reading in one place.
pub count_health_bounds :
    (e : Bool) (metrics : List (String × Reading)) (names : List String)
    → let h = count_health e metrics names in
      (h.good + h.stale + h.error ≤ h.total) × (h.total ≤ length names)
unfolding count_health
count_health_bounds e metrics [] = omega arith
count_health_bounds e metrics (n ∷ ns) = omega (
  arith,
  count_health_bounds e metrics ns,
  count_reading_bounds e (lookup_in n metrics) (count_health e metrics ns),
)

pub div-le_hundred : (a b : ℕ) → a ≤ b → 0 < b → (200 * a + b) / (2 * b) ≤ 100
div-le_hundred a b h pos = grind arith

pub percent-le : (a b : ℕ) → a ≤ b → percent a b ≤ 100
percent-le a b h = elim (Bool-cases (ltb 0 b)) [
  | inl e ↦ rw e (div-le_hundred a b h (ltb→lt 0 b e))
  | inr e ↦ rw e (omega arith)
]

pub fresh-good :
    (v q u : Option String)
    → let r : Reading = record { value = v; quality = q; unit = u } in
      is_fresh (some r) ≡ true → (counted_quality r === "good") ≡ true
fresh-good none q u h = cc
fresh-good (some v) none u h = cc
fresh-good (some v) (some q) u h = elim (Bool-cases (q === "")) [
  | inl e ↦ cc (rw e at h)
  | inr e ↦ rw e (rw e at h)
]

pub count_reading-good :
    (e ok : Bool) (r : Option Reading) (h : Health)
    → (if ok && is_fresh r then h.good + 1 else h.good) ≤ (count_reading e r h).good
count_reading-good e ok none h = ground arith
count_reading-good e ok (some r) h = ground (arith, fresh-good r.value r.quality r.unit)

pub count_fresh-le :
    (e ok : Bool) (metrics : List (String × Reading)) (names : List String)
    → count_fresh ok metrics names ≤ (count_health e metrics names).good
unfolding count_health
count_fresh-le e ok metrics [] = omega arith
count_fresh-le e ok metrics (n ∷ ns) = ground (
  arith,
  count_fresh-le e ok metrics ns,
  count_reading-good e ok (lookup_in n metrics) (count_health e metrics ns),
)

-- The two ways to read a quality agree where the reading has one.
pub quality_agrees :
    (v q u : Option String)
    → truthy q ≡ true
    → let r : Reading = record { value = v; quality = q; unit = u } in
      is_fresh (some r) ≡ (counted_quality r === "good")
quality_agrees none q u h = refl
quality_agrees (some v) none u h = cc
quality_agrees (some v) (some q) u h = elim (Bool-cases (q === "")) [
  | inl e ↦ cc (rw e at h)
  | inr e ↦ rw e refl
]

abbrev pub HasQuality : Option Reading → Type 0
HasQuality none = Unit
HasQuality (some r) = truthy r.quality ≡ true

pub reading_agrees :
    (e : Bool) (r : Option Reading) (h : Health)
    → HasQuality r
    → (count_reading e r h).good ≡ (if is_fresh r then h.good + 1 else h.good)
reading_agrees e none h q = ground arith
reading_agrees e (some r) h q = ground (arith, quality_agrees r.value r.quality r.unit)

pub fresh-eq_good :
    (e : Bool) (metrics : List (String × Reading)) (names : List String)
    → All (λ n. HasQuality (lookup_in n metrics)) names
    → count_fresh true metrics names ≡ (count_health e metrics names).good
unfolding count_health
fresh-eq_good e metrics [] q = refl
fresh-eq_good e metrics (n ∷ ns) q = ground (
  arith,
  fresh-eq_good e metrics ns q.1,
  reading_agrees e (lookup_in n metrics) (count_health e metrics ns) q.0,
)
