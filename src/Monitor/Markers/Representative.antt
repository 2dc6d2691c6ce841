-- ===== src/Monitor/Markers/Representative.antt =====
-- The flag that stands for a bucket.
use gateway_hub.Monitor.Markers.{
  Sample, items_of, earlier, marker_of, Bucket, outranks, rank_of, representative, Flag,
}
use gateway_hub.Prelude.{
  Bool, subst, Option-cases, ===-other, ◌==◌, ◌≤◌, ltb, ℕ, not, ◌&&◌, ◌||◌, leb, ◌===◌, none, some,
  length, sym, String, ap, inr, inl, Bool-cases, arith, ◌++◌, All, true, false, ◌⊎◌, ◌≡◌, List, [],
  ◌∷◌, refl,
}
use mathlib.Core.List.{Perm}
use gateway_hub.Prelude.Sort.{OrderedBy, sort_by-perm, sort_by-OrderedBy}

ranks-IsNotAbove :
    (r q s t : ℕ)
    → 1 ≤ r × r ≤ 3
    → 1 ≤ q × q ≤ 3
    → (ltb q r || (r == q && ltb t s)) ≡ false
    → ((not (r == 3) || q == 3) ≡ true)
      × ((not (r == 2) || q == 3 || q == 2) ≡ true)
      × ((not (r == 3 && q == 3) || leb s t) ≡ true)
      × ((not (r == 2 && q == 2) || leb s t) ≡ true)
      × ((r == 3 || r == 2 || q == 3 || q == 2 || leb s t) ≡ true)
ranks-IsNotAbove r q s t hr hq h = ground arith

module _ {V : Type 0} where
  beaten : (a b c : Flag V) → outranks a b ≡ true → outranks a c ≡ false → outranks b c ≡ false
  beaten a b c h k = ground arith

  level : (a b c : Flag V) → outranks a b ≡ false → outranks b c ≡ false → outranks a c ≡ false
  level a b c h k = ground arith

  irreflexive : (a : Flag V) → outranks a a ≡ false
  irreflexive a = ground arith

  step_up :
      (a rep : Flag V) (items : List (Flag V))
      → outranks a rep ≡ true
      → representative rep (a ∷ items) ≡ representative a items
  unfolding representative
  step_up a rep items e = rw e refl

  step_on :
      (a rep : Flag V) (items : List (Flag V))
      → outranks a rep ≡ false
      → representative rep (a ∷ items) ≡ representative rep items
  unfolding representative
  step_on a rep items e = rw e refl

  -- No member outranks the flag, and neither does another one.
  IsTop : Flag V → List (Flag V) → Flag V → Type 0
  IsTop rep items top = (outranks rep top ≡ false) × All (λ a. outranks a top ≡ false) items

  representative-IsTop :
      (rep : Flag V) (items : List (Flag V)) → IsTop rep items (representative rep items)
  unfolding representative IsTop
  representative-IsTop rep [] = (irreflexive rep, tt)
  representative-IsTop rep (a ∷ items) = elim (Bool-cases (outranks a rep)) [
    | inl e ↦
        let r = representative-IsTop a items in
        subst (IsTop rep (a ∷ items)) (sym (step_up a rep items e))
          (beaten a rep (representative a items) e r.0, (r.0, r.1))
    | inr e ↦
        let r = representative-IsTop rep items in
        subst (IsTop rep (a ∷ items)) (sym (step_on a rep items e))
          (r.0, (level a rep (representative rep items) e r.0, r.1))
  ]

  representative-member :
      (rep : Flag V) (items : List (Flag V))
      → (representative rep items ≡ rep)
        ⊎ ((before : List (Flag V)) × (after : List (Flag V)) × (items
              ≡ before ++ (representative rep items ∷ after)))
  unfolding representative
  representative-member rep [] = inl refl
  representative-member rep (a ∷ items) = elim (Bool-cases (outranks a rep)) [
    | inl e ↦
        rw (e, representative)
          (elim (representative-member a items) [
            | inl h ↦ inr ([], items, ap (◌∷ items) (sym h))
            | inr (before, after, h) ↦ inr (a ∷ before, after, ap (a ∷◌) h)
          ])
    | inr e ↦
        rw (e, representative)
          (elim (representative-member rep items) [
            | inl h ↦ inl h
            | inr (before, after, h) ↦ inr (a ∷ before, after, ap (a ∷◌) h)
          ])
  ]

  first-member :
      (a : Flag V) (items : List (Flag V)) (r : Flag V)
      → r ≡ a
      → (before : List (Flag V)) × (after : List (Flag V)) × (a ∷ items ≡ before ++ (r ∷ after))
  first-member a items r e = ([], items, ap (◌∷ items) (sym e))

  bucket-member :
      (b : Bucket V)
      → let r = representative b.first (items_of b) in
        (before : List (Flag V)) × (after : List (Flag V)) × (items_of b ≡ before ++ (r ∷ after))
  bucket-member b = elim (representative-member b.first (items_of b)) [
    | inl e ↦ first-member b.first b.rest _ e
    | inr m ↦ m
  ]

  earlier_trans : (a b c : Flag V) → earlier a b ≡ true → earlier b c ≡ true → earlier a c ≡ true
  earlier_trans a b c h k = ground arith

  earlier_total : (a b : Flag V) → earlier a b ≡ false → earlier b a ≡ true
  earlier_total a b h = ground arith

  abbrev is_of : String → Flag V → Bool
  is_of s a = elim a.severity [ none ↦ false | some t ↦ t === s ]

  -- A flag that is neither more severe than the other one, of the severities "Critical", "Warning" and
  -- any other or none, nor as severe and later.
  abbrev pub IsNotAbove : Flag V → Flag V → Type 0
  IsNotAbove a b =
      let critical = is_of "Critical" in
      let warning = is_of "Warning" in
      ((not (critical a) || critical b) ≡ true)
      × ((not (warning a) || critical b || warning b) ≡ true)
      × ((not (critical a && critical b) || leb a.ts_ms b.ts_ms) ≡ true)
      × ((not (warning a && warning b) || leb a.ts_ms b.ts_ms) ≡ true)
      × ((critical a || warning a || critical b || warning b || leb a.ts_ms b.ts_ms) ≡ true)

  rank_of-critical : (a : Flag V) → is_of "Critical" a ≡ (rank_of a.severity == 3)
  rank_of-critical a = elim (Option-cases a.severity) [
    | inl e ↦ rw e refl
    | inr (s, e) ↦ rw e (ground arith)
  ]

  rank_of-warning : (a : Flag V) → is_of "Warning" a ≡ (rank_of a.severity == 2)
  rank_of-warning a = elim (Option-cases a.severity) [
    | inl e ↦ rw e refl
    | inr (s, e) ↦ rw e (ground (arith, ===-other s "Critical" "Warning"))
  ]

  rank_of-le_three : (a : Flag V) → (1 ≤ rank_of a.severity) × (rank_of a.severity ≤ 3)
  rank_of-le_three a = elim (Option-cases a.severity) [
    | inl e ↦ rw e (omega arith)
    | inr (s, e) ↦ rw e (ground arith)
  ]

  IsNotAbove-intro : (a b : Flag V) → outranks a b ≡ false → IsNotAbove a b
  IsNotAbove-intro a b h =
      rw (rank_of-critical a, rank_of-critical b, rank_of-warning a, rank_of-warning b)
        (ranks-IsNotAbove (rank_of a.severity) (rank_of b.severity) a.ts_ms b.ts_ms
          (rank_of-le_three a) (rank_of-le_three b) h)

  All-IsNotAbove :
      (b : Flag V) (items : List (Flag V))
      → All (λ a. outranks a b ≡ false) items
      → All (λ a. IsNotAbove a b) items
  All-IsNotAbove b [] h = tt
  All-IsNotAbove b (a ∷ items) h = (IsNotAbove-intro a b h.0, All-IsNotAbove b items h.1)

  -- The marker of a bucket: its flag is one of the bucket's, and none of them is more severe, nor as
  -- severe and later; it counts the bucket's flags, and lists them in the order of their times.
  pub marker_of_lem :
      (apart : ℕ → ℕ → ℕ) (lower : String → String) (line : List (Sample V)) (b : Bucket V)
      → let m = marker_of apart lower line b in
        ((before : List (Flag V)) × (after : List (Flag V)) × (items_of b
            ≡ before ++ (m.rep ∷ after)))
        × All (λ a. IsNotAbove a m.rep) (items_of b)
        × (m.count ≡ length (items_of b))
        × Perm m.items (items_of b)
        × OrderedBy earlier m.items
  unfolding marker_of IsTop
  marker_of_lem apart lower line b = (
    bucket-member b,
    All-IsNotAbove (representative b.first (items_of b)) (items_of b)
        (representative-IsTop b.first (items_of b)).1,
    refl,
    sort_by-perm earlier (items_of b),
    sort_by-OrderedBy earlier earlier_trans earlier_total (items_of b),
  )
