-- ===== src/Incidents/Paging/Numbers.antt =====
-- Which page numbers are offered, and what the buttons of the pager carry.
use gateway_hub.Prelude.Int.{neg_part}
use gateway_hub.Prelude.{
  map, length, ◌≤◌, ◌<◌, if◌then◌else◌, ℕ, zero, suc, ◌+◌, ◌≡◌, refl, ap, ◌∙◌, not, inl, inr,
  Bool-cases, Bool, true, false, ◌&&◌, ◌||◌, ◌==◌, leb, ltb, Option, none, some, List, [], ◌∷◌,
  arith,
}
use gateway_hub.Incidents.Paging.{
  pos_part, Pager, number_button, Button, pager, Item, page, gap, is_gap, is_kept, number_loop,
  page_numbers,
}

-- The numbers among the items.
abbrev pub numbers_of : List Item → List ℕ
numbers_of [] = []
numbers_of (page n ∷ items) = n ∷ numbers_of items
numbers_of (gap ∷ items) = numbers_of items

abbrev pub has_number : ℕ → List ℕ → Bool
has_number n [] = false
has_number n (m ∷ ns) = n == m || has_number n ns

-- What may follow the number n, or n and an ellipsis: the next number without an ellipsis, a number
-- further on after one; no second ellipsis, and none at the end.
abbrev pub Follow : ℕ → Bool → List Item → Type 0
Follow n after_gap [] = after_gap ≡ false
Follow n false (page m ∷ items) = (m ≡ n + 1) × Follow m false items
Follow n true (page m ∷ items) = (n + 1 < m) × Follow m false items
Follow n after_gap (gap ∷ items) = (after_gap ≡ false) × Follow n true items

-- The items start with the number 0.
abbrev pub Start : List Item → Type 0
Start [] = Unit
Start (page m ∷ items) = (m ≡ 0) × Follow m false items
Start (gap ∷ items) = true ≡ false

bounds-kept :
    (i rounds n : ℕ) (q : Bool)
    → (n == i && not q) ≡ false
    → (n == i || (leb (i + 1) n && ltb n (i + 1 + rounds) && q))
      ≡ (leb i n && ltb n (i + suc rounds) && q)
bounds-kept i rounds n true h = ground arith
bounds-kept i rounds n false h = ground arith

bounds-skipped :
    (i rounds n : ℕ) (q : Bool)
    → (n == i && q) ≡ false
    → (leb (i + 1) n && ltb n (i + 1 + rounds) && q) ≡ (leb i n && ltb n (i + suc rounds) && q)
bounds-skipped i rounds n true h = ground arith
bounds-skipped i rounds n false h = ground arith

-- A test at a number that is i, if it is.
test_at : (f : ℕ → Bool) (n i : ℕ) → f i ≡ false → (n == i && f n) ≡ false
test_at f n i h = elim (Bool-cases (n == i)) [
  | inl e ↦ let same : n ≡ i = ground arith in rw e (ap f same ∙ h)
  | inr e ↦ rw e refl
]

module _ (current pages : ℕ) where
  has_number-loop :
      (n rounds i : ℕ) (last : Option Item)
      → has_number n (numbers_of (number_loop current pages rounds i last))
        ≡ (leb i n && ltb n (i + rounds) && is_kept current pages n)
  unfolding number_loop
  has_number-loop n zero i last = ground arith
  has_number-loop n (suc rounds) i last = elim (Bool-cases (is_kept current pages i)) [
    | inl k ↦
        rw (k, has_number-loop n rounds (i + 1) (some (page i)))
          (bounds-kept i rounds n (is_kept current pages n)
            (test_at (λ m. not (is_kept current pages m)) n i (rw k refl)))
    | inr k ↦
        let skipped =
          bounds-skipped i rounds n (is_kept current pages n)
            (test_at (is_kept current pages) n i k) in
        elim (Bool-cases (is_gap last)) [
          | inl g ↦ rw (k, g, has_number-loop n rounds (i + 1) last) skipped
          | inr g ↦ rw (k, g, has_number-loop n rounds (i + 1) (some gap)) skipped
        ]
  ]

  more_left : (rounds i : ℕ) → i + suc rounds ≡ pages → is_kept current pages i ≡ false → 0 < rounds
  more_left rounds i e k = ground arith

  Follow-loop :
      (rounds i n : ℕ)
      → i + rounds ≡ pages
      → (i ≡ n + 1 → Follow n false (number_loop current pages rounds i (some (page n))))
        × (n + 1 < i → 0 < rounds → Follow n true (number_loop current pages rounds i (some gap)))
  unfolding number_loop
  Follow-loop zero i n e = (λ h. refl, λ h pos. absurd (omega arith))
  Follow-loop (suc rounds) i n e =
      let after_page = (Follow-loop rounds (i + 1) i (omega arith)).0 refl in
      let further = (Follow-loop rounds (i + 1) n (omega arith)).1 in
      elim (Bool-cases (is_kept current pages i)) [
        | inl k ↦ (λ h. rw k (h, after_page), λ h pos. rw k (h, after_page))
        | inr k ↦
            let left = more_left rounds i e k in
            (
              λ h. rw k (refl, further (omega arith) left),
              λ h pos. rw k (further (omega arith) left),
            )
      ]

  Start-loop : (p : ℕ) → pages ≡ p → Start (number_loop current pages p 0 none)
  unfolding number_loop
  Start-loop zero e = tt
  Start-loop (suc p) e = (refl, (Follow-loop p 1 0 (omega arith)).0 refl)

  kept_near :
      (n : ℕ)
      → (leb 0 n && ltb n (0 + pages) && is_kept current pages n) ≡ (
          ltb n pages && (n == 0 || n + 1 == pages || (leb n (current + 1) && leb current (n + 1))))
  kept_near n = ground arith

  -- The page numbers offered are those of the first and the last page, of the current one and of its
  -- two neighbours, where they exist. They start with 0 and increase, and an ellipsis stands between
  -- two of them just when there are pages between.
  pub page_numbers_lem :
      (n : ℕ)
      → (has_number n (numbers_of (page_numbers current pages)) ≡ (
          ltb n pages
          && (n == 0 || n + 1 == pages || (leb n (current + 1) && leb current (n + 1)))))
        × Start (page_numbers current pages)
  unfolding page_numbers
  page_numbers_lem n = (has_number-loop n pages 0 none ∙ kept_near n, Start-loop pages refl)

abbrev gap_size : Option Item → ℕ
gap_size last = if is_gap last then 1 else 0

-- The number of items from page `i` on, by where `i` stands.
module _ (current pages : ℕ) where
  length_past :
      (rounds i : ℕ) (last : Option Item)
      → current + 2 ≤ i
      → i + rounds ≡ pages
      → length (number_loop current pages rounds i last) + gap_size last ≤ 2
  unfolding number_loop
  length_past zero i last h e = ground arith
  length_past (suc zero) i last h e = ground arith
  length_past (suc (suc rounds)) i last h e =
      ground
        (arith, length_past (suc rounds) (i + 1) last, length_past (suc rounds) (i + 1) (some gap))

  length_right :
      (rounds i : ℕ) (last : Option Item)
      → current + 1 ≤ i
      → i + rounds ≡ pages
      → length (number_loop current pages rounds i last) ≤ 3
  unfolding number_loop
  length_right zero i last h e = ground arith
  length_right (suc rounds) i last h e = ground (
    arith,
    length_past rounds (i + 1) last,
    length_past rounds (i + 1) (some gap),
    length_past rounds (i + 1) (some (page i)),
  )

  length_here :
      (rounds i : ℕ) (last : Option Item)
      → i ≡ current
      → i + rounds ≡ pages
      → length (number_loop current pages rounds i last) ≤ 4
  unfolding number_loop
  length_here zero i last h e = ground arith
  length_here (suc rounds) i last h e = ground (arith, length_right rounds (i + 1) (some (page i)))

  length_left :
      (rounds i : ℕ) (last : Option Item)
      → i + 1 ≡ current
      → i + rounds ≡ pages
      → length (number_loop current pages rounds i last) ≤ 5
  unfolding number_loop
  length_left zero i last h e = ground arith
  length_left (suc rounds) i last h e = ground (arith, length_here rounds (i + 1) (some (page i)))

  length_before :
      (rounds i : ℕ) (last : Option Item)
      → 1 ≤ i
      → i + 1 ≤ current
      → current < pages
      → i + rounds ≡ pages
      → length (number_loop current pages rounds i last) + gap_size last ≤ 6
  unfolding number_loop
  length_before zero i last p h c e = absurd (omega arith)
  length_before (suc rounds) i last p h c e = ground (
    arith,
    length_left (suc rounds) i last,
    length_before rounds (i + 1) last,
    length_before rounds (i + 1) (some gap),
  )

length_all :
    (current pages : ℕ) → current < pages → length (number_loop current pages pages 0 none) ≤ 7
unfolding number_loop
length_all current zero c = absurd (omega arith)
length_all current (suc rounds) c = ground (
  arith,
  length_right current (suc rounds) rounds 1 (some (page 0)),
  length_here current (suc rounds) rounds 1 (some (page 0)),
  length_left current (suc rounds) rounds 1 (some (page 0)),
  length_before current (suc rounds) rounds 1 (some (page 0)),
)

-- However many pages there are, at most seven items are drawn.
pub length-page_numbers :
    (current pages : ℕ) → current < pages → length (page_numbers current pages) ≤ 7
unfolding page_numbers
length-page_numbers current pages c = length_all current pages c

-- A button that can be pressed carries a page that exists.
abbrev pub HasTarget : ℕ → Button → Type 0
HasTarget pages b = b.disabled ≡ false → (neg_part b.target ≡ 0) × (pos_part b.target < pages)

abbrev pub HaveTargets : ℕ → List (Option Button) → Type 0
HaveTargets pages [] = Unit {0}
HaveTargets pages (none ∷ bs) = HaveTargets pages bs
HaveTargets pages (some b ∷ bs) = HasTarget pages b × HaveTargets pages bs

loop-HaveTargets :
    (current pages rounds i : ℕ) (last : Option Item)
    → i + rounds ≡ pages
    → HaveTargets pages (map (number_button current) (number_loop current pages rounds i last))
unfolding number_loop
loop-HaveTargets current pages zero i last e = tt
loop-HaveTargets current pages (suc rounds) i last e = ground (
  arith,
  loop-HaveTargets current pages rounds (i + 1) last,
  loop-HaveTargets current pages rounds (i + 1) (some (page i)),
  loop-HaveTargets current pages rounds (i + 1) (some gap),
)

-- The previous, the next and every numbered button of a pager that is drawn for a page that
-- exists: each that can be pressed carries a page that exists.
pub pager_targets :
    (current pages total : ℕ) (p : Pager)
    → current < pages
    → pager current pages total ≡ some p
    → HasTarget pages p.previous × HaveTargets pages p.numbers × HasTarget pages p.following
unfolding pager page_numbers
pager_targets current pages total p lt e =
    ground (arith, loop-HaveTargets current pages pages 0 none)
