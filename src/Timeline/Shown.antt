-- ===== src/Timeline/Shown.antt =====
-- What the elements of a list with the buttons "Newer" and "Older" show.
use gateway_hub.Prelude.Int.{pos}
use gateway_hub.Incidents.Paging.{paginate}
use gateway_hub.Timeline.{
  newer, Steps, older, press_on, steps_of, page_within, slice, count_pages, Press, render, press,
  History,
}
use gateway_hub.Prelude.{
  ◌≤◌, ◌++◌, ◌∙◌, ap, subst, false, true, min, zero, Option, suc, refl, none, ◌∷◌, some, ◌-◌,
  take-nil, ltb, drop-nil, ◌+◌, [], sym, ◌*◌, inr, arith, inl, ◌==◌, ◌≡◌, if◌then◌else◌, length,
  Bool-cases, ◌<◌, List, ℕ,
}
use gateway_hub.Incidents.Paging.Slices.{pages_partition, first_pages, paginate_bounds}

module _ {ℓ} {A : Type ℓ} (per : ℕ) where
  -- The elements show the page `at` of the events, and the pager tells so.
  pub record Shows (at : ℕ) (h : History A) : Type ℓ where
    pub at_lt : at < count_pages h.events per
    pub shown_eq : h.shown ≡ slice (at * per) ((at + 1) * per) h.events
    pub pager_eq : h.pager ≡ (
        if ltb 1 (count_pages h.events per)
        then some (steps_of at (count_pages h.events per) (length h.events))
        else none)

  slice-empty : (a b : ℕ) (xs : List A) → length xs ≡ 0 → slice a b xs ≡ []
  slice-empty a b [] e = rw (drop-nil {A = A} a) (take-nil (b - a))
  slice-empty a b (x ∷ xs) e = absurd (omega arith)

  count_pages-empty : (xs : List A) → length xs ≡ 0 → count_pages xs per ≡ 1
  count_pages-empty xs e = rw e (grind arith)

  -- The page of a list that is rendered.
  abbrev pub landing : History A → ℕ
  landing h = if length h.events == 0 then 0 else page_within per h

  pub render-Shows : (h : History A) → Shows (landing h) (render per h)
  unfolding render
  render-Shows h = elim (Bool-cases (length h.events == 0)) [
    | inl e ↦
        let empty : length h.events ≡ 0 = ground arith in
        let one = count_pages-empty h.events empty in
        rw e (record {
          at_lt = omega arith;
          shown_eq = sym (slice-empty _ _ h.events empty);
          pager_eq = rw one refl;
        })
    | inr e ↦ rw e (record { at_lt = omega arith; shown_eq = refl; pager_eq = refl })
  ]

  -- A page that is shown has an event if the list has one.
  pub Shows-filled :
      (at : ℕ) (h : History A) → 0 < per → Shows at h → 0 < length h.events → 0 < length h.shown
  unfolding paginate
  Shows-filled at h p s full =
      let e : min at (count_pages h.events per - 1) ≡ at = omega (arith, s.at_lt) in
      rw s.shown_eq (rw e at ((paginate_bounds h.events (pos at) per p).2 full))

  press_on-Shows :
      (o : Option Steps) (p : Press) (at : ℕ) (h : History A)
      → Shows at h
      → (k : ℕ) × Shows k (press_on per o p h)
  unfolding press_on
  press_on-Shows none p at h s = (at, s)
  press_on-Shows (some b) newer at h s = elim (Bool-cases b.newer_disabled) [
    | inl e ↦ rw e (at, s)
    | inr e ↦ rw e (_, render-Shows (record h { page = h.page - 1 }))
  ]
  press_on-Shows (some b) older at h s = elim (Bool-cases b.older_disabled) [
    | inl e ↦ rw e (at, s)
    | inr e ↦ rw e (_, render-Shows (record h { page = min (b.count - 1) (h.page + 1) }))
  ]

  -- A press shows a page of the same events.
  pub press-Shows :
      (p : Press) (at : ℕ) (h : History A) → Shows at h → (k : ℕ) × Shows k (press per p h)
  unfolding press
  press-Shows p at h s = press_on-Shows h.pager p at h s

  abbrev pub press_older : ℕ → History A → History A
  press_older zero h = h
  press_older (suc n) h = press_older n (press per older h)

  -- Rendering keeps the events and the line for an empty list.
  pub render-eq :
      (h : History A)
      → ((render per h).events ≡ h.events)
        × ((render per h).page ≡ (if length h.events == 0 then h.page else page_within per h))
        × ((render per h).empty_hidden ≡ h.empty_hidden)
  unfolding render
  render-eq h = elim (Bool-cases (length h.events == 0)) [
    | inl e ↦ rw e (refl, refl, refl)
    | inr e ↦ rw e (refl, refl, refl)
  ]

  press_on-eq :
      (o : Option Steps) (p : Press) (h : History A)
      → ((press_on per o p h).events ≡ h.events)
        × ((press_on per o p h).empty_hidden ≡ h.empty_hidden)
  unfolding press_on
  press_on-eq none p h = (refl, refl)
  press_on-eq (some b) newer h = elim (Bool-cases b.newer_disabled) [
    | inl e ↦ rw e (refl, refl)
    | inr e ↦ let r = render-eq (record h { page = h.page - 1 }) in rw e (r.0, r.2)
  ]
  press_on-eq (some b) older h = elim (Bool-cases b.older_disabled) [
    | inl e ↦ rw e (refl, refl)
    | inr e ↦
        let r = render-eq (record h { page = min (b.count - 1) (h.page + 1) }) in rw e (r.0, r.2)
  ]

  -- So does a press.
  pub press-eq :
      (p : Press) (h : History A)
      → ((press per p h).events ≡ h.events) × ((press per p h).empty_hidden ≡ h.empty_hidden)
  unfolding press
  press-eq p h = press_on-eq h.pager p h

  filled : (xs : List A) → 1 < count_pages xs per → (length xs == 0) ≡ false
  filled xs h = elim (Bool-cases (length xs == 0)) [
    | inl e ↦
        let empty : length xs ≡ 0 = ground arith in
        let one = count_pages-empty xs empty in absurd (omega arith)
    | inr e ↦ e
  ]

  press-drawn :
      (b : Steps) (h : History A)
      → h.pager ≡ some b
      → b.older_disabled ≡ false
      → press per older h ≡ render per (record h { page = min (b.count - 1) (h.page + 1) })
  unfolding press press_on
  press-drawn b h e free = ap (λ o. press_on per o older h) e ∙ rw free refl

  -- The list shows the page `at`, which its state is on.
  StandsAt : ℕ → History A → Type ℓ
  StandsAt at h = Shows at h × (h.page ≡ at)

  press-next :
      (at : ℕ) (h : History A)
      → StandsAt at h
      → at + 1 < count_pages h.events per
      → StandsAt (at + 1) (press per older h) × ((press per older h).events ≡ h.events)
  unfolding StandsAt steps_of
  press-next at h (s, e) more =
      let drawn : ltb 1 (count_pages h.events per) ≡ true = ground arith in
      let b = steps_of at (count_pages h.events per) (length h.events) in
      let free : b.older_disabled ≡ false = ground arith in
      let full = filled h.events (omega arith) in
      let moved = record h { page = min (b.count - 1) (h.page + 1) } in
      let lands : landing moved ≡ at + 1 = rw full (omega (arith, e)) in
      rw (press-drawn b h (rw drawn at s.pager_eq) free) (
        (
          subst (λ k. Shows k (render per moved)) lands (render-Shows moved),
          (render-eq moved).1 ∙ rw full (rw full at lands),
        ),
        (render-eq moved).0,
      )

  press_older-reaches :
      (n at : ℕ) (h : History A)
      → StandsAt at h
      → at + n < count_pages h.events per
      → StandsAt (at + n) (press_older n h) × ((press_older n h).events ≡ h.events)
  press_older-reaches zero at h s more =
      let same : at ≡ at + 0 = omega arith in (subst (λ k. StandsAt k h) same s, refl)
  press_older-reaches (suc n) at h s more =
      let next = press-next at h s (omega arith) in
      let rest =
        press_older-reaches n (at + 1) (press per older h) next.0 (rw next.1 (omega arith)) in
      let same : at + 1 + n ≡ at + suc n = omega arith in
      (subst (λ k. StandsAt k (press_older n (press per older h))) same rest.0, rest.1 ∙ next.1)

  -- What the list shows before each of `n` presses of "Older", one after the other.
  abbrev pub read_through : ℕ → History A → List A
  read_through zero h = []
  read_through (suc n) h = read_through n h ++ (press_older n h).shown

  read_through-pages :
      (n : ℕ) (h : History A)
      → StandsAt 0 h
      → n ≤ count_pages h.events per
      → read_through n h ≡ first_pages h.events per n
  unfolding StandsAt paginate
  read_through-pages zero h s le = refl
  read_through-pages (suc n) h s le =
      let r = press_older-reaches n 0 h s (omega arith) in
      let start : 0 + n ≡ n = omega arith in
      let at : min n (count_pages h.events per - 1) ≡ n = omega arith in
      rw (read_through-pages n h s (omega arith), at)
        (ap (first_pages h.events per n ++◌) (r.0.0.shown_eq ∙ rw (r.1, start) refl))

  -- An answer that is shown from its first page can be read to its end: before and after each press
  -- of "Older" up to the last page, the list shows all events, in their order and each once.
  pub read_all :
      (h : History A)
      → 0 < per
      → h.page ≡ 0
      → read_through (count_pages h.events per) (render per h) ≡ h.events
  unfolding StandsAt paginate
  read_all h p e =
      let lands : landing h ≡ 0 = ground arith in
      let on : (if length h.events == 0 then h.page else page_within per h) ≡ 0 = ground arith in
      let stands : StandsAt 0 (render per h) =
        (subst (λ k. Shows k (render per h)) lands (render-Shows h), (render-eq h).1 ∙ on) in
      let same = (render-eq h).0 in
      let all =
        read_through-pages (count_pages h.events per) (render per h) stands
          (rw same (omega arith)) in
      all ∙ rw same (pages_partition h.events per p)
