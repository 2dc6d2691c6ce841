-- ===== src/Incidents/Paging/Slices.antt =====
-- The pages of a list: nothing is lost, nothing is shown twice, and no page is empty.
use Prim.Native.Nat.{max}
use gateway_hub.Prelude.{
  ℕ, zero, suc, ◌+◌, ◌-◌, ◌*◌, ◌≤◌, ◌<◌, min, ◌≡◌, ap, sym, ◌∙◌, List, [], ◌++◌, length, take, drop,
  arith, min, length-take, length-drop, length-take, length-drop, take_all, take-add,
}
use gateway_hub.Prelude.Int.{ℤ, pos}
use gateway_hub.Incidents.Paging.{slice, ceil_div, count_pages, clamp_page, slice, paginate}

-- The slices of the first `k` pages, one after the other.
abbrev pub first_pages {ℓ} : {A : Type ℓ} → List A → ℕ → ℕ → List A
first_pages rows per zero = []
first_pages rows per (suc k) = first_pages rows per k ++ (paginate rows (pos k) per).shown

ceil_div_covers : (n d : ℕ) → 0 < d → n ≤ ceil_div n d * d
ceil_div_covers n d h = grind arith

start_lt_of : (n d k : ℕ) → 0 < d → 0 < n → k < max 1 (ceil_div n d) → k * d < n
start_lt_of n d k h r lt = grind arith

max_mul : (k d n : ℕ) → n ≤ k * d → n ≤ max 1 k * d
max_mul k d n h = grind arith

module _ {ℓ} {A : Type ℓ} (rows : List A) (per : ℕ) where
  -- The pages hold all rows.
  covers : 0 < per → length rows ≤ count_pages rows per * per
  covers h = max_mul _ per _ (ceil_div_covers (length rows) per h)

  current-eq : (k : ℕ) → k < count_pages rows per → clamp_page (pos k) (count_pages rows per) ≡ k
  current-eq k h = omega arith

  shown-eq :
      (k : ℕ)
      → k < count_pages rows per
      → (paginate rows (pos k) per).shown ≡ take per (drop (k * per) rows)
  unfolding paginate
  shown-eq k h = rw (current-eq k h) (
      ap (λ n. take n (drop (k * per) rows))
        (let e : (k + 1) * per - k * per ≡ per = omega arith in e))

  first_pages-eq-take :
      (k : ℕ) → k ≤ count_pages rows per → first_pages rows per k ≡ take (k * per) rows
  first_pages-eq-take zero h = ap (λ n. take n rows) (let e : 0 ≡ 0 * per = omega arith in e)
  first_pages-eq-take (suc k) h =
      rw (first_pages-eq-take k (omega arith), shown-eq k h)
        (sym (take-add (k * per) per rows)
          ∙ ap (λ n. take n rows) (let e : k * per + per ≡ suc k * per = omega arith in e))

  -- The pages of a list, one after the other, are the list: no row is lost or shown twice.
  pub pages_partition : 0 < per → first_pages rows per (paginate rows (pos 0) per).page_count ≡ rows
  unfolding paginate
  pages_partition h =
      first_pages-eq-take (count_pages rows per) (omega arith) ∙ take_all _ rows (covers h)

  clamp_lt : (page : ℤ) → clamp_page page (count_pages rows per) < count_pages rows per
  clamp_lt page = omega arith

  -- A page that exists starts before the end of the list.
  start_lt : (k : ℕ) → 0 < per → 0 < length rows → k < count_pages rows per → k * per < length rows
  start_lt k h r lt = start_lt_of (length rows) per k h r lt

-- The page that is shown exists, holds at most `per` rows, and is empty only if the list is;
-- asking for the page shown shows it again.
pub paginate_bounds {ℓ} :
    {A : Type ℓ} (rows : List A) (page : ℤ) (per : ℕ)
    → 0 < per
    → ((paginate rows page per).current < (paginate rows page per).page_count)
      × (length (paginate rows page per).shown ≤ per)
      × (0 < length rows → 0 < length (paginate rows page per).shown)
      × (paginate rows (pos (paginate rows page per).current) per ≡ paginate rows page per)
unfolding paginate
paginate_bounds rows page per h =
    let k = clamp_page page (count_pages rows per) in
    let room : (k + 1) * per - k * per ≡ per = omega arith in
    let size : length (slice (k * per) ((k + 1) * per) rows)
        ≡ min ((k + 1) * per - k * per) (length rows - k * per) =
      length-take _ _ ∙ ap (min ((k + 1) * per - k * per)) (length-drop (k * per) rows) in
    (
      clamp_lt rows per page,
      omega (arith, size),
      (λ r. omega (arith, size, start_lt rows per k h r (clamp_lt rows per page))),
      rw (current-eq rows per k (clamp_lt rows per page)),
    )
