-- ===== src/Forwarding/Status/Agreement.antt =====
-- The forwarding page and the overview of web_console/static/js/app.js on the same profiles.
use gateway_hub.Forwarding.Status.{
  Banner, pipeline_alert, fwd_card, is_ok, ◌∷◌, active, delivers, total, Item, fwd_tone,
  state_class,
}
use gateway_hub.Prelude.{
  Bool, not, false, refl, suc, ◌||◌, String, ap, length-keep, ltb, inr, inl, [], Bool-cases, ◌↔◌,
  arith, keep, All, true, length, ◌≡◌, List, ℕ,
}

-- A profile delivers on the overview just when its card on the page is green.
delivers-class : (i : Item) → (delivers i ≡ true) ↔ (state_class i ≡ is_ok)
unfolding state_class
delivers-class i = ground arith

all_keep :
    (items : List Item)
    → length (keep delivers items) ≡ length items
    → All (λ i. state_class i ≡ is_ok) items
all_keep [] h = tt
all_keep (i ∷ items) h = elim (Bool-cases (delivers i)) [
  | inl e ↦ ((delivers-class i).0 e, all_keep items (ground (arith, h, e)))
  | inr e ↦ absurd (ground (arith, h, e, length-keep delivers items))
]

of_not : (b : Bool) → not b ≡ true → b ≡ false
of_not true h = absurd (cc h)
of_not false h = refl

keep_all :
    (items : List Item)
    → All (λ i. state_class i ≡ is_ok) items
    → length (keep delivers items) ≡ length items
keep_all [] h = refl
keep_all (i ∷ items) h = rw ((delivers-class i).1 h.0) (ap suc (keep_all items h.1))

fwd_tone-active :
    (all on buffered dropped : ℕ)
    → (fwd_tone all on buffered dropped ≡ active)
      ↔ ((on ≡ all) × ((ltb 0 buffered || ltb 0 dropped) ≡ false))
unfolding fwd_tone
fwd_tone-active all on buffered dropped =
    (λ h. (ground (arith, h), ground (arith, h)), λ h. ground (arith, h.0, h.1))

module _ (grouped : ℕ → String) where
  pipeline_alert-hidden :
      (items : List Item) (b : Banner)
      → (pipeline_alert grouped items b).hidden
        ≡ not (ltb 0 (total (λ i. i.pending) items) || ltb 0 (total (λ i. i.dropped) items))
  unfolding pipeline_alert
  pipeline_alert-hidden items b =
      elim (Bool-cases
        (ltb 0 (total (λ i. i.pending) items) || ltb 0 (total (λ i. i.dropped) items))) [
          | inl e ↦ rw e refl
          | inr e ↦ rw e refl
        ]

  -- The overview's card for some profiles is painted as active just when the banner of the forwarding
  -- page is hidden and each profile's card there is green.
  pub fwd_card-agrees :
      (items : List Item) (b : Banner)
      → ((fwd_card grouped items).tone ≡ active) ↔ (
          ((pipeline_alert grouped items b).hidden ≡ true) × All (λ i. state_class i ≡ is_ok) items)
  unfolding fwd_card
  fwd_card-agrees items b =
      let tone =
        fwd_tone-active (length items) (length (keep delivers items)) (total (λ i. i.pending) items)
          (total (λ i. i.dropped) items) in
      rw (pipeline_alert-hidden items b) (
        λ h. (rw ((tone.0 h).1) refl, all_keep items (tone.0 h).0),
        λ h. tone.1 (keep_all items h.1, of_not _ h.0),
      )
