-- ===== src/Prelude/Sort.antt =====
-- A stable insertion sort by a Boolean test, for `sort` with a comparator.
use mathlib.Core.List.{Perm}
use mathlib.Core.List.Perm
use mathlib.Core.Path.{◌≡◌}
use mathlib.Core.Bool.{Bool, true, false}
use mathlib.Core.List.{List, [], ◌∷◌}
use mathlib.Core.Logic.{inl, inr}
use gateway_hub.Prelude.Tests.{Bool-cases, if◌then◌else◌}
use gateway_hub.Prelude.Lists.{All}

-- `first x y` tells that x may stand before y.
module _ {A : Type 0} (first : A → A → Bool) where
  unfoldable pub insert_by : A → List A → List A
  insert_by x [] = x ∷ []
  insert_by x (y ∷ ys) = let rest = insert_by x ys in if first x y then x ∷ y ∷ ys else y ∷ rest

  unfoldable pub sort_by : List A → List A
  unfolding insert_by
  sort_by [] = []
  sort_by (x ∷ xs) = insert_by x (sort_by xs)

  -- Each member may stand before all that follow it.
  abbrev pub OrderedBy : List A → Type 0
  OrderedBy [] = Unit
  OrderedBy (x ∷ xs) = All (λ y. first x y ≡ true) xs × OrderedBy xs

  insert_by-perm : (x : A) (ys : List A) → Perm (insert_by x ys) (x ∷ ys)
  unfolding insert_by
  insert_by-perm x [] = Perm.rfl
  insert_by-perm x (y ∷ ys) = elim (Bool-cases (first x y)) [
    | inl e ↦ rw (e, insert_by) Perm.rfl
    | inr e ↦ rw (e, insert_by) (Perm.trans (Perm.cons y (insert_by-perm x ys)) (Perm.swap x y ys))
  ]

  pub sort_by-perm : (xs : List A) → Perm (sort_by xs) xs
  unfolding sort_by
  sort_by-perm [] = Perm.rfl
  sort_by-perm (x ∷ xs) = Perm.trans (insert_by-perm x (sort_by xs)) (Perm.cons x (sort_by-perm xs))

  module _ (first_trans : (x y z : A) → first x y ≡ true → first y z ≡ true → first x z ≡ true)
      (first_total : (x y : A) → first x y ≡ false → first y x ≡ true) where
    All-after :
        (x y : A) (zs : List A)
        → first x y ≡ true
        → All (λ z. first y z ≡ true) zs
        → All (λ z. first x z ≡ true) zs
    All-after x y [] h a = tt
    All-after x y (z ∷ zs) h a = (first_trans x y z h a.0, All-after x y zs h a.1)

    All-insert_by :
        (x y : A) (zs : List A)
        → first y x ≡ true
        → All (λ z. first y z ≡ true) zs
        → All (λ z. first y z ≡ true) (insert_by x zs)
    unfolding insert_by
    All-insert_by x y [] h a = (h, tt)
    All-insert_by x y (z ∷ zs) h a = elim (Bool-cases (first x z)) [
      | inl e ↦ rw (e, insert_by) (h, a)
      | inr e ↦ rw (e, insert_by) (a.0, All-insert_by x y zs h a.1)
    ]

    insert_by-OrderedBy : (x : A) (ys : List A) → OrderedBy ys → OrderedBy (insert_by x ys)
    unfolding insert_by
    insert_by-OrderedBy x [] o = (tt, tt)
    insert_by-OrderedBy x (y ∷ ys) o = elim (Bool-cases (first x y)) [
      | inl e ↦ rw (e, insert_by) ((e, All-after x y ys e o.0), o)
      | inr e ↦
          rw (e, insert_by)
            (All-insert_by x y ys (first_total x y e) o.0, insert_by-OrderedBy x ys o.1)
    ]

    pub sort_by-OrderedBy : (xs : List A) → OrderedBy (sort_by xs)
    unfolding sort_by
    sort_by-OrderedBy [] = tt
    sort_by-OrderedBy (x ∷ xs) = insert_by-OrderedBy x (sort_by xs) (sort_by-OrderedBy xs)
