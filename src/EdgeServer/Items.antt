-- ===== src/EdgeServer/Items.antt =====
-- The lists of items with an id that the handlers of the Edge Server page in
-- web_console/static/js/app.js save into, delete from and toggle in.
use gateway_hub.Prelude.{
  ℕ, ◌≤◌, ◌≡◌, refl, not, Option, none, some, String, List, [], ◌∷◌, length, keep, find, ◌===◌,
  ◌==◌, if◌then◌else◌, arith, eq_iff,
}

module _ {A : Type 0} (id_of : A → String) where
  -- `list[idx] = …`, or a push where the id is not found.
  unfoldable pub put : A → List A → List A
  put x [] = x ∷ []
  put x (y ∷ ys) = let rest = put x ys in if id_of y === id_of x then x ∷ ys else y ∷ rest

  unfoldable pub remove : String → List A → List A
  remove id xs = keep (λ x. not (id_of x === id)) xs

  -- The first item with the id is changed in place.
  unfoldable pub change : (A → A) → String → List A → List A
  change f id [] = []
  change f id (x ∷ xs) = let rest = change f id xs in if id_of x === id then f x ∷ xs else x ∷ rest

  abbrev pub find_id : String → List A → Option A
  find_id id xs = find (λ x. id_of x === id) xs

  abbrev pub count_id : String → List A → ℕ
  count_id id xs = length (keep (λ x. id_of x === id) xs)

  -- No id is of two items.
  abbrev pub Distinct : List A → Type 0
  Distinct xs = (id : String) → count_id id xs ≤ 1

  pub find-put :
      (id : String) (x : A) (xs : List A)
      → find_id id (put x xs) ≡ (if id_of x === id then some x else find_id id xs)
  unfolding put
  find-put id x [] = refl
  find-put id x (y ∷ ys) = ground (
    arith,
    eq_iff (id_of y) (id_of x),
    eq_iff (id_of x) id,
    eq_iff (id_of y) id,
    find-put id x ys,
  )

  pub find-remove : (id : String) (xs : List A) → find_id id (remove id xs) ≡ none
  unfolding remove
  find-remove id [] = refl
  find-remove id (x ∷ xs) = ground (arith, find-remove id xs)

  count-put :
      (id : String) (x : A) (xs : List A)
      → count_id id (put x xs) ≡ (
          if id_of x === id
          then (if count_id id xs == 0 then 1 else count_id id xs)
          else count_id id xs)
  unfolding put
  count-put id x [] = ground arith
  count-put id x (y ∷ ys) = ground (
    arith,
    eq_iff (id_of y) (id_of x),
    eq_iff (id_of x) id,
    eq_iff (id_of y) id,
    count-put id x ys,
  )

  pub put-Distinct : (x : A) (xs : List A) → Distinct xs → Distinct (put x xs)
  put-Distinct x xs h = λ id. ground (arith, h id, count-put id x xs)

  count-remove : (id i : String) (xs : List A) → count_id i (remove id xs) ≤ count_id i xs
  unfolding remove
  count-remove id i [] = ground arith
  count-remove id i (x ∷ xs) = ground (arith, count-remove id i xs)

  pub remove-Distinct : (id : String) (xs : List A) → Distinct xs → Distinct (remove id xs)
  remove-Distinct id xs h = λ i. omega (arith, h i, count-remove id i xs)

  module _ (f : A → A) (same : (x : A) → id_of (f x) ≡ id_of x) where
    count-change : (id i : String) (xs : List A) → count_id i (change f id xs) ≡ count_id i xs
    unfolding change
    count-change id i [] = refl
    count-change id i (x ∷ xs) = ground (arith, same x, count-change id i xs)

    pub change-Distinct : (id : String) (xs : List A) → Distinct xs → Distinct (change f id xs)
    change-Distinct id xs h = λ i. omega (arith, h i, count-change id i xs)

    -- A change that undoes itself, done twice, leaves the list as it was.
    pub change-change :
        ((x : A) → f (f x) ≡ x) → (id : String) (xs : List A) → change f id (change f id xs) ≡ xs
    unfolding change
    change-change twice id [] = refl
    change-change twice id (x ∷ xs) = ground (arith, same x, twice x, change-change twice id xs)
