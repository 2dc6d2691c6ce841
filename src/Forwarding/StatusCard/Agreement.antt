-- ===== src/Forwarding/StatusCard/Agreement.antt =====
-- The banner of the forwarding page and its cards tell the same of the buffered messages.
use gateway_hub.Forwarding.StatusCard.{
  answered, all_entries, StatusPanel, StatusBody, Entry, ◌∷◌, Meta, show_status, status_card,
  refresh_status,
}
use gateway_hub.Prelude.{
  sym, ap, ◌∙◌, false, length, ◌<◌, arith, refl, inr, true, inl, [], map, if◌then◌else◌, Bool-cases,
  any, not, ◌+◌, ◌||◌, ◌≡◌, String, ltb, List, ℕ, Bool,
}
use gateway_hub.Forwarding.Status.{Item, total, pipeline_alert, Banner, buffer_line}

abbrev has_backlog : Item → Bool
has_backlog i = ltb 0 i.pending || ltb 0 i.dropped

either_step :
    (a x b y : ℕ) (rest : Bool)
    → (ltb 0 x || ltb 0 y) ≡ rest
    → (ltb 0 (a + x) || ltb 0 (b + y)) ≡ (if ltb 0 a || ltb 0 b then true else rest)
either_step a x b y rest h = ground arith

totals-any :
    (items : List Item)
    → (ltb 0 (total (λ i. i.pending) items) || ltb 0 (total (λ i. i.dropped) items))
      ≡ any has_backlog items
totals-any [] = refl
totals-any (i ∷ items) = either_step i.pending _ i.dropped _ _ (totals-any items)

module _ (grouped : ℕ → String) where
  banner-any :
      (items : List Item) (b : Banner)
      → (pipeline_alert grouped items b).hidden ≡ not (any has_backlog items)
  unfolding pipeline_alert
  banner-any items b = elim (Bool-cases (any has_backlog items)) [
    | inl e ↦ rw (totals-any items, e) refl
    | inr e ↦ rw (totals-any items, e) refl
  ]

module _ (date clock grouped : ℕ → String) where
  cards-any :
      (now : ℕ) (names : List (String × Meta)) (entries : List Entry)
      → any (λ c. c.buffer.has_detail) (map (status_card date grouped now names) entries)
        ≡ any has_backlog (map (λ e. e.item) entries)
  unfolding status_card buffer_line
  cards-any now names [] = refl
  cards-any now names (e ∷ entries) = rw (cards-any now names entries) refl

  cards-length :
      (now : ℕ) (names : List (String × Meta)) (entries : List Entry)
      → length (map (status_card date grouped now names) entries) ≡ length entries
  cards-length now names [] = refl
  cards-length now names (e ∷ entries) = omega (arith, cards-length now names entries)

  show_status-banner :
      (now : ℕ) (names : List (String × Meta)) (entries : List Entry) (p : StatusPanel)
      → 0 < length entries
      → let seen = show_status date clock grouped now names entries p in
        (length seen.cards ≡ length entries)
        × (seen.hidden ≡ false)
        × (seen.banner.hidden ≡ not (any (λ c. c.buffer.has_detail) seen.cards))
  unfolding show_status
  show_status-banner now names [] p full = absurd (omega arith)
  show_status-banner now names (e ∷ entries) p full = (
    cards-length now names (e ∷ entries),
    refl,
    banner-any grouped (map (λ x. x.item) (e ∷ entries)) p.banner
        ∙ ap not (sym (cards-any now names (e ∷ entries))),
  )

  -- After an answer that is ok and has profiles, there is one card for each of its profiles, the
  -- panel is shown, and its banner is shown if and only if some card shows the numbers of its buffer.
  pub refresh_status-banner :
      (now : ℕ) (names : List (String × Meta)) (b : StatusBody) (p : StatusPanel)
      → b.ok ≡ true
      → 0 < length (all_entries b)
      → let seen = refresh_status date clock grouped now names (answered b) p in
        (length seen.cards ≡ length (all_entries b))
        × (seen.hidden ≡ false)
        × (seen.banner.hidden ≡ not (any (λ c. c.buffer.has_detail) seen.cards))
  unfolding refresh_status
  refresh_status-banner now names b p ok full =
      rw ok (show_status-banner now names (all_entries b) p full)
