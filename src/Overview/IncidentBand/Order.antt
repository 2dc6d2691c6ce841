-- ===== src/Overview/IncidentBand/Order.antt =====
-- The order of the incidents band of the overview in web_console/static/js/app.js.
use mathlib.Core.List.{Perm}
use gateway_hub.Prelude.Sort.{OrderedBy, sort_by-perm, sort_by-OrderedBy}
use gateway_hub.Prelude.{
  zero, suc, not, suc, ℕ, ◌≤◌, ◌<◌, ◌≡◌, refl, sym, subst, ap, ◌∙◌, Bool-cases, inl, inr, Bool,
  true, false, ◌&&◌, String, List, [], ◌∷◌, ◌++◌, keep, All, ◌==◌, ◌===◌, arith, ===-other,
}
use gateway_hub.Incidents.Data.{Incident}
use gateway_hub.Overview.IncidentBand.{rank, comes_first, sort_incidents, of_status}

-- Each incident comes before all that follow it.
abbrev pub Ordered : List Incident → Type 0
Ordered rows = OrderedBy comes_first rows

comes_first_trans :
    (x y z : Incident) → comes_first x y ≡ true → comes_first y z ≡ true → comes_first x z ≡ true
unfolding comes_first
comes_first_trans x y z h k = ground arith

comes_first_total : (x y : Incident) → comes_first x y ≡ false → comes_first y x ≡ true
unfolding comes_first
comes_first_total x y h = ground arith

abbrev pub of_rank : ℕ → List Incident → List Incident
of_rank k rows = keep (λ i. rank i.status == k) rows

rank-le_three : (s : String) → rank s ≤ 3
unfolding rank
rank-le_three s = ground arith

comes_first-rank : (x y : Incident) → comes_first x y ≡ true → rank x.status ≤ rank y.status
unfolding comes_first
comes_first-rank x y h = ground arith

lt-eq_false : (k n : ℕ) → k < n → (n == k) ≡ false
lt-eq_false k n h = ground arith

none_below :
    (k : ℕ) (x : Incident) (ys : List Incident)
    → k < rank x.status
    → All (λ y. comes_first x y ≡ true) ys
    → of_rank k ys ≡ []
none_below k x [] h a = refl
none_below k x (y ∷ ys) h a =
    let other : (rank y.status == k) ≡ false =
      lt-eq_false k (rank y.status) (omega (arith, comes_first-rank x y a.0)) in
    rw other (none_below k x ys h a.1)

abbrev by_rank : List Incident → List Incident
by_rank xs = of_rank 0 xs ++ of_rank 1 xs ++ of_rank 2 xs ++ of_rank 3 xs

by_rank-cons :
    (r : ℕ) (x : Incident) (xs : List Incident)
    → rank x.status ≡ r
    → r ≤ 3
    → All (λ y. comes_first x y ≡ true) xs
    → by_rank (x ∷ xs) ≡ x ∷ by_rank xs
by_rank-cons zero x xs e h a = rw e refl
by_rank-cons (suc zero) x xs e h a = rw (e, none_below 0 x xs (omega (arith, e)) a) refl
by_rank-cons (suc (suc zero)) x xs e h a =
    rw (e, none_below 0 x xs (omega (arith, e)) a, none_below 1 x xs (omega (arith, e)) a) refl
by_rank-cons (suc (suc (suc zero))) x xs e h a =
    rw
      (
        e,
        none_below 0 x xs (omega (arith, e)) a,
        none_below 1 x xs (omega (arith, e)) a,
        none_below 2 x xs (omega (arith, e)) a,
      )
      refl
by_rank-cons (suc (suc (suc (suc r)))) x xs e h a = absurd (omega arith)

Ordered-eq_by_rank : (xs : List Incident) → Ordered xs → by_rank xs ≡ xs
Ordered-eq_by_rank [] o = refl
Ordered-eq_by_rank (x ∷ xs) o =
    by_rank-cons (rank x.status) x xs refl (rank-le_three x.status) o.0
    ∙ ap (x ∷◌) (Ordered-eq_by_rank xs o.1)

keep-ext :
    (p q : Incident → Bool)
    → ((i : Incident) → p i ≡ q i)
    → (xs : List Incident) → keep p xs ≡ keep q xs
keep-ext p q h [] = refl
keep-ext p q h (x ∷ xs) = rw (h x, keep-ext p q h xs) refl

rank-open : (s : String) → (rank s == 0) ≡ (s === "open")
unfolding rank
rank-open s = ground arith

rank-recovering : (s : String) → (rank s == 1) ≡ (s === "recovering")
unfolding rank
rank-recovering s = ground (arith, ===-other s "open" "recovering")

rank-resolved : (s : String) → (rank s == 2) ≡ (s === "resolved")
unfolding rank
rank-resolved s = ground (arith, ===-other s "resolved" "recovering", ===-other s "resolved" "open")

-- The incidents of none of the three statuses.
abbrev pub of_other : List Incident → List Incident
of_other rows =
    keep
      (λ i.
        not (i.status === "open")
        && not (i.status === "recovering")
        && not (i.status === "resolved"))
      rows

rank-other :
    (s : String)
    → (rank s == 3) ≡ (not (s === "open") && not (s === "recovering") && not (s === "resolved"))
unfolding rank
rank-other s = ground arith

-- No incident starts later than one that stands above it.
abbrev pub NewestFirst : List Incident → Type 0
NewestFirst [] = Unit
NewestFirst (x ∷ xs) = All (λ y. y.started_ms ≤ x.started_ms) xs × NewestFirst xs

comes_first-started :
    (x y : Incident)
    → comes_first x y ≡ true
    → rank x.status ≡ rank y.status
    → y.started_ms ≤ x.started_ms
unfolding comes_first
comes_first-started x y h e = ground arith

not_later :
    (k : ℕ) (x : Incident) (ys : List Incident)
    → rank x.status ≡ k
    → All (λ y. comes_first x y ≡ true) ys
    → All (λ y. y.started_ms ≤ x.started_ms) (of_rank k ys)
not_later k x [] h a = tt
not_later k x (y ∷ ys) h a = elim (Bool-cases (rank y.status == k)) [
  | inl e ↦
      let same : rank x.status ≡ rank y.status = ground arith in
      rw e (comes_first-started x y a.0 same, not_later k x ys h a.1)
  | inr e ↦ rw e (not_later k x ys h a.1)
]

of_rank-NewestFirst : (k : ℕ) (xs : List Incident) → Ordered xs → NewestFirst (of_rank k xs)
of_rank-NewestFirst k [] o = tt
of_rank-NewestFirst k (x ∷ xs) o = elim (Bool-cases (rank x.status == k)) [
  | inl e ↦
      let same : rank x.status ≡ k = ground arith in
      rw e (not_later k x xs same o.0, of_rank-NewestFirst k xs o.1)
  | inr e ↦ rw e (of_rank-NewestFirst k xs o.1)
]

-- The band lists every incident of the answer, as often as the answer has it: the active ones
-- first, then the recovering, then the resolved, then those of any other status; and within each
-- status a later start never stands below an earlier one.
pub sort_incidents_lem :
    (rows : List Incident)
    → let all = sort_incidents rows in
      Perm all rows
      × (all
          ≡ of_status "open" all
            ++ of_status "recovering" all
            ++ of_status "resolved" all
            ++ of_other all)
      × NewestFirst (of_status "open" all)
      × NewestFirst (of_status "recovering" all)
      × NewestFirst (of_status "resolved" all)
      × NewestFirst (of_other all)
unfolding sort_incidents
sort_incidents_lem rows =
    let all = sort_incidents rows in
    let ordered : Ordered all =
      sort_by-OrderedBy comes_first comes_first_trans comes_first_total rows in
    let newest : (k : ℕ) → NewestFirst (of_rank k all) = λ k. of_rank-NewestFirst k all ordered in
    let parts : by_rank all ≡ all = Ordered-eq_by_rank all ordered in
    (
      sort_by-perm comes_first rows,
      sym parts
          ∙ rw
              (
                keep-ext _ _ (λ i. rank-open i.status) all,
                keep-ext _ _ (λ i. rank-recovering i.status) all,
                keep-ext _ _ (λ i. rank-resolved i.status) all,
                keep-ext _ _ (λ i. rank-other i.status) all,
              )
              refl,
      subst NewestFirst (keep-ext _ _ (λ i. rank-open i.status) all) (newest 0),
      subst NewestFirst (keep-ext _ _ (λ i. rank-recovering i.status) all) (newest 1),
      subst NewestFirst (keep-ext _ _ (λ i. rank-resolved i.status) all) (newest 2),
      subst NewestFirst (keep-ext _ _ (λ i. rank-other i.status) all) (newest 3),
    )
