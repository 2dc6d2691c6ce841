-- ===== src/Overview/InsightsCard/Problems.antt =====
-- The problems on the insights card of the overview in web_console/static/js/app.js.
use gateway_hub.Overview.InsightsCard.{
  rows_limit, row_of, FlagEvent, ◌∷◌, LiveDevice, Configured, rows_of, is_bad, summary, worse_first,
  Row,
}
use mathlib.Core.List.{Perm}
use gateway_hub.Prelude.Sort.{OrderedBy, sort_by-perm, sort_by-OrderedBy}
use gateway_hub.Prelude.{
  take-append-drop, take, ◌⊎◌, ◌++◌, inr, inl, Bool-cases, map, zero, suc, arith, drop, All, [],
  false, true, ◌≡◌, List, ℕ,
}

worse_first_trans :
    (x y z : Row) → worse_first x y ≡ true → worse_first y z ≡ true → worse_first x z ≡ true
unfolding worse_first
worse_first_trans x y z h k = ground arith

worse_first_total : (x y : Row) → worse_first x y ≡ false → worse_first y x ≡ true
unfolding worse_first
worse_first_total x y h = ground arith

worse_first-bad : (x y : Row) → worse_first x y ≡ true → is_bad y ≡ true → is_bad x ≡ true
unfolding worse_first
worse_first-bad x y h k = ground arith

-- If a row is a problem, so are all rows that stand before it.
no_bad-after :
    (x : Row) (ys : List Row)
    → is_bad x ≡ false
    → All (λ y. worse_first x y ≡ true) ys
    → All (λ r. is_bad r ≡ false) ys
no_bad-after x [] h a = tt
no_bad-after x (y ∷ ys) h a = elim (Bool-cases (is_bad y)) [
  | inl e ↦ absurd (cc (worse_first-bad x y a.0 e, h))
  | inr e ↦ (e, no_bad-after x ys h a.1)
]

All-drop :
    (n : ℕ) (ys : List Row)
    → All (λ r. is_bad r ≡ false) ys
    → All (λ r. is_bad r ≡ false) (drop n ys)
All-drop zero ys h = h
All-drop (suc n) [] h = tt
All-drop (suc n) (y ∷ ys) h = All-drop n ys h.1

bad_first :
    (n : ℕ) (rows : List Row)
    → OrderedBy worse_first rows
    → All (λ r. is_bad r ≡ false) (drop n rows) ⊎ All (λ r. is_bad r ≡ true) (take n rows)
bad_first zero rows o = inr tt
bad_first (suc n) [] o = inl tt
bad_first (suc n) (r ∷ rows) o = elim (Bool-cases (is_bad r)) [
  | inr e ↦ inl (All-drop n rows (no_bad-after r rows e o.0))
  | inl e ↦ elim (bad_first n rows o.1) [ inl k ↦ inl k | inr k ↦ inr (e, k) ]
]

-- The card hides a problem only behind problems: its rows are the devices', the rows that it shows
-- are the first of them, and if one that it does not show is a problem, all that it shows are.
pub summary-problems :
    (configured : List Configured) (live : List LiveDevice) (events : List FlagEvent)
    → let rows = rows_of configured live events in
      Perm rows (map (row_of live events) configured)
      × ((summary configured live events).shown ++ drop rows_limit rows ≡ rows)
      × (All (λ r. is_bad r ≡ false) (drop rows_limit rows)
          ⊎ All (λ r. is_bad r ≡ true) (summary configured live events).shown)
unfolding summary rows_of
summary-problems configured live events =
    let rows = rows_of configured live events in
    (
      sort_by-perm worse_first (map (row_of live events) configured),
      take-append-drop rows_limit rows,
      bad_first rows_limit rows (
          sort_by-OrderedBy worse_first worse_first_trans worse_first_total
            (map (row_of live events) configured)),
    )
