-- ===== src/Forwarding/Buffer/Sparkline.antt =====
-- Where the points of the sparkline lie.
use gateway_hub.Forwarding.Buffer.{◌∷◌, largest, sparkline, points_from, x_of, y_of, Point}
use gateway_hub.Prelude.{
  false, ltb, refl, ◌-◌, suc, [], ◌≡◌, length, ◌+◌, All, List, arith, ◌<◌, ◌≤◌, ℕ,
}

-- A point in the box that is drawn, off its upper and lower edges.
pub record IsInside (p : Point) : Type 0 where
  pub x_le : p.x ≤ 120
  pub y_ge : 1 ≤ p.y
  pub y_le : p.y ≤ 31

x_of-bound : (gaps i : ℕ) → 0 < gaps → i ≤ gaps → x_of gaps i ≤ 120
x_of-bound gaps i h k = grind arith

y_of-bounds : (top v : ℕ) → 0 < top → v ≤ top → (1 ≤ y_of top v) × (y_of top v ≤ 31)
y_of-bounds top v h k = (grind arith, grind arith)

-- A larger value lies at least as high.
pub y_of-antitone : (top v w : ℕ) → 0 < top → v ≤ w → w ≤ top → y_of top w ≤ y_of top v
y_of-antitone top v w h k l = grind arith

largest-pos : (history : List ℕ) → 0 < largest history
largest-pos [] = omega arith
largest-pos (v ∷ history) = omega (arith, largest-pos history)

AtMost : ℕ → List ℕ → Type 0
AtMost top = All (λ v. v ≤ top)

weaken : (a b : ℕ) (history : List ℕ) → a ≤ b → AtMost a history → AtMost b history
unfolding AtMost
weaken a b [] h k = tt
weaken a b (v ∷ history) h k = (omega (arith, k.0), weaken a b history h k.1)

largest-AtMost : (history : List ℕ) → AtMost (largest history) history
unfolding AtMost
largest-AtMost [] = tt
largest-AtMost (v ∷ history) =
    (omega arith, weaken (largest history) _ history (omega arith) (largest-AtMost history))

points_from-IsInside :
    (gaps top i : ℕ) (history : List ℕ)
    → 0 < gaps
    → 0 < top
    → i + length history ≤ suc gaps
    → AtMost top history
    → All IsInside (points_from gaps top i history)
      × (length (points_from gaps top i history) ≡ length history)
unfolding points_from AtMost
points_from-IsInside gaps top i [] g t le h = (tt, refl)
points_from-IsInside gaps top i (v ∷ history) g t le h =
    let rest = points_from-IsInside gaps top (i + 1) history g t (omega arith) h.1 in
    let y = y_of-bounds top v t h.0 in
    (
      (record { x_le = x_of-bound gaps i g (omega arith); y_ge = y.0; y_le = y.1 }, rest.0),
      omega (arith, rest.1),
    )

-- A sparkline of two values or more has a point for each, and all of them lie inside the box, off
-- its upper and lower edges; the first is on its left edge and the last on its right one.
pub sparkline-IsInside :
    (history : List ℕ)
    → 2 ≤ length history
    → All IsInside (sparkline history)
      × (length (sparkline history) ≡ length history)
      × (x_of (length history - 1) 0 ≡ 0)
      × (x_of (length history - 1) (length history - 1) ≡ 120)
unfolding sparkline
sparkline-IsInside history two =
    let drawn : ltb (length history) 2 ≡ false = ground arith in
    let p =
      points_from-IsInside (length history - 1) (largest history) 0 history (omega arith)
        (largest-pos history) (omega arith) (largest-AtMost history) in
    rw drawn (p.0, p.1, grind arith, grind arith)
