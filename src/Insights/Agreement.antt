-- ===== src/Insights/Agreement.antt =====
-- The cards and the key figures of the insights page in web_console/static/js/app.js, compared.
use gateway_hub.Insights.Counts.{
  count_health_bounds, percent-le, count_fresh-le, HasQuality, fresh-eq_good,
}
use gateway_hub.Prelude.{
  lookup_in, ===-other, ℕ, ◌+◌, ◌≤◌, ◌≡◌, ◌↔◌, refl, Bool, true, false, ◌&&◌, ◌||◌, not, ◌⊎◌, subst,
  eq_iff, Option, none, some, String, List, [], ◌∷◌, length, All, ◌===◌, or_text, if◌then◌else◌,
  arith, Bool-cases, inl, inr,
}
use gateway_hub.Insights.Data.{device_key, Device, Reading, Live}
use gateway_hub.Insights.Cards.{
  Card, count_health, in_error, apply_live, health_pct, live_for, show_issue, issue_of, live_card,
  show_unreachable, show_live, offline, live, warning, error,
}
use gateway_hub.Insights.Figures.{
  device_ok, fresh_of, good_metrics, total_metrics, find_live, update_kpis,
}

abbrev pub good_of : Device → Option Live → ℕ
good_of d none = 0
good_of d (some l) = (count_health (in_error l) l.metrics d.expected).good

abbrev pub key_of : Device → String
key_of d = device_key d.source d.device_id

abbrev pub live_key : Live → String
live_key l = device_key l.source l.device_id

-- The good readings of the cards, device by device.
abbrev pub card_good : List Live → List Device → ℕ
card_good ls [] = 0
card_good ls (d ∷ ds) = good_of d (live_for (key_of d) ls) + card_good ls ds

fresh_of-le : (d : Device) (l : Option Live) → fresh_of d l ≤ good_of d l
unfolding fresh_of
fresh_of-le d none = omega arith
fresh_of-le d (some l) = count_fresh-le (in_error l) (device_ok l) l.metrics d.expected

good_of-le : (d : Device) (l : Option Live) → good_of d l ≤ length d.expected
good_of-le d none = omega arith
good_of-le d (some l) = omega (arith, count_health_bounds (in_error l) l.metrics d.expected)

live_for-none :
    (key : String) (ls : List Live)
    → All (λ l. (live_key l === key) ≡ false) ls
    → live_for key ls ≡ none
unfolding live_for
live_for-none key [] h = refl
live_for-none key (l ∷ ls) h = rw (live_for-none key ls h.1, h.0) refl

-- No two entries are of one source and device.
abbrev pub DistinctKeys : List Live → Type 0
DistinctKeys [] = Unit
DistinctKeys (l ∷ ls) = All (λ m. (live_key m === live_key l) ≡ false) ls × DistinctKeys ls

same_key :
    (l : Live) (d : Device)
    → (l.source === d.source && l.device_id === d.device_id) ≡ true
    → live_key l ≡ key_of d
same_key l d e =
    let source : (l.source === d.source) ≡ true = ground arith in
    let id : (l.device_id === d.device_id) ≡ true = ground arith in
    rw ((eq_iff l.source d.source).0 source, (eq_iff l.device_id d.device_id).0 id) refl

-- The entry that the strip finds for a device is the one that its card finds.
found_by_key :
    (d : Device) (ls : List Live)
    → DistinctKeys ls
    → (find_live d ls ≡ none)
      ⊎ ((l : Live) × (find_live d ls ≡ some l) × (live_for (key_of d) ls ≡ some l))
unfolding find_live live_for
found_by_key d [] h = inl refl
found_by_key d (l ∷ ls) h =
    elim (Bool-cases (l.source === d.source && l.device_id === d.device_id)) [
      | inl e ↦
          let same : live_key l ≡ key_of d = same_key l d e in
          let after : live_for (key_of d) ls ≡ none =
            live_for-none (key_of d) ls
              (subst (λ k. All (λ m. (live_key m === k) ≡ false) ls) same h.0) in
          rw (e, after, (eq_iff (live_key l) (key_of d)).1 same) (inr (l, refl, refl))
      | inr e ↦ elim (found_by_key d ls h.1) [
        | inl f ↦ inl (rw e f)
        | inr (m, f, k) ↦ inr (m, rw e f, rw k refl)
      ]
    ]

fresh-le_card :
    (d : Device) (ls : List Live)
    → DistinctKeys ls
    → fresh_of d (find_live d ls) ≤ good_of d (live_for (key_of d) ls)
unfolding fresh_of
fresh-le_card d ls h = elim (found_by_key d ls h) [
  | inl e ↦ rw e (omega arith)
  | inr (l, e, k) ↦ rw (e, k) (fresh_of-le d (some l))
]

good_metrics-le :
    (ls : List Live) (ds : List Device) → DistinctKeys ls → good_metrics ls ds ≤ card_good ls ds
unfolding good_metrics
good_metrics-le ls [] h = omega arith
good_metrics-le ls (d ∷ ds) h = omega (arith, fresh-le_card d ls h, good_metrics-le ls ds h)

card_good-le : (ls : List Live) (ds : List Device) → card_good ls ds ≤ total_metrics ds
card_good-le ls [] = omega arith
card_good-le ls (d ∷ ds) = omega (arith, good_of-le d (live_for (key_of d) ls), card_good-le ls ds)

-- If no two entries of the live data have one key, of their source and device, the strip of key figures never
-- counts more readings as fresh than the cards count as good; the cards never count more as good than
-- are expected, and the quality bar is never wider than 100 %.
pub update_kpis_bounds :
    (configured : ℕ) (flags : Option ℕ) (ds : List Device) (ls : List Live)
    → DistinctKeys ls
    → (good_metrics ls ds ≤ card_good ls ds)
      × (card_good ls ds ≤ total_metrics ds)
      × ((update_kpis configured flags ds ls).bar_width ≤ 100)
unfolding update_kpis
update_kpis_bounds configured flags ds ls distinct =
    let le = good_metrics-le ls ds distinct in
    let all = card_good-le ls ds in
    (le, all, percent-le (good_metrics ls ds) (total_metrics ds) (omega (arith, le, all)))

-- Of a device that is in order, whose found readings each have a quality, the strip counts the
-- readings as fresh that the card counts as good.
pub fresh_agrees :
    (d : Device) (l : Live)
    → device_ok l ≡ true
    → All (λ n. HasQuality (lookup_in n l.metrics)) d.expected
    → fresh_of d (some l) ≡ (count_health (in_error l) l.metrics d.expected).good
unfolding fresh_of
fresh_agrees d l ok q = rw ok (fresh-eq_good (in_error l) l.metrics d.expected q)

abbrev one_if : Bool → ℕ
one_if b = if b then 1 else 0

-- The status of the live data, where a missing or empty one is "ok".
abbrev pub says : String → Option Live → Bool
says s none = false
says s (some l) = or_text l.status "ok" === s

-- A status that the page has no class for.
abbrev pub says_other : Option Live → Bool
says_other none = false
says_other (some l) =
    let s = or_text l.status "ok" in
    not (s === "ok") && not (s === "warning") && not (s === "error") && not (s === "offline")

-- The card and its badge tell of one state, or of none that has a colour; the class for errors is that
-- of live data that tell of an error, and the badge for errors stands for them and for an unknown
-- status; the bar fits.
abbrev pub IsCoherent : Option Live → Card → Type 0
IsCoherent l c =
    (c.is_error ≡ says "error" l)
    × ((c.status ≡ error) ↔ ((c.is_error || says_other l) ≡ true))
    × ((c.status ≡ offline) ↔ (c.is_offline ≡ true))
    × (one_if c.is_offline + one_if c.is_live + one_if c.is_warning + one_if c.is_error ≤ 1)
    × ((c.status ≡ live) ↔ (c.is_live ≡ true))
    × ((c.status ≡ warning) ↔ (c.is_warning ≡ true))
    × (c.health_width ≤ 100)

if-IsCoherent :
    (l : Option Live) (b : Bool) (x y : Card)
    → (b ≡ true → IsCoherent l x)
    → (b ≡ false → IsCoherent l y)
    → IsCoherent l (if b then x else y)
if-IsCoherent l true x y h k = h refl
if-IsCoherent l false x y h k = k refl

show_issue-IsCoherent :
    (i : String × Bool) (l : Option Live) (c : Card)
    → IsCoherent l c
    → IsCoherent l (show_issue i c)
show_issue-IsCoherent (text, e) l c h = elim (Bool-cases (text === "")) [
  | inl k ↦ rw k h
  | inr k ↦ rw k h
]

health_pct-le :
    (e : Bool) (metrics : List (String × Reading)) (names : List String)
    → health_pct e (count_health e metrics names) ≤ 100
health_pct-le true metrics names = omega arith
health_pct-le false metrics names =
    let h = count_health_bounds false metrics names in
    percent-le (count_health false metrics names).good (count_health false metrics names).total
      (omega (arith, h.0))

module _ (age : ℕ → String) where
  show_unreachable-IsCoherent :
      (l : Live) (c : Card)
      → (or_text l.status "ok" === "offline") ≡ true
      → IsCoherent (some l) (show_unreachable age l c)
  unfolding show_unreachable
  show_unreachable-IsCoherent l c h =
      ground (arith, ===-other (or_text l.status "ok") "offline" "error")

  status_flags :
      (s : String)
      → (s === "offline") ≡ false
      → let st = if s === "ok" then live else if s === "warning" then warning else error in
        ((st ≡ error) ↔ (
          (s === "error"
            || not (s === "ok")
              && not (s === "warning")
              && not (s === "error")
              && not (s === "offline"))
          ≡ true))
        × ((st ≡ offline) ↔ (false ≡ true))
        × (0 + one_if (s === "ok") + one_if (s === "warning") + one_if (s === "error") ≤ 1)
        × ((st ≡ live) ↔ ((s === "ok") ≡ true))
        × ((st ≡ warning) ↔ ((s === "warning") ≡ true))
  status_flags s h =
      ground
        (arith, ===-other s "ok" "warning", ===-other s "ok" "error", ===-other s "warning" "error")

  live_card-IsCoherent :
      (names : List String) (l : Live) (c : Card)
      → (or_text l.status "ok" === "offline") ≡ false
      → IsCoherent (some l) (live_card age names l c)
  unfolding live_card
  live_card-IsCoherent names l c h =
      let f = status_flags (or_text l.status "ok") h in
      (refl, f.0, f.1, f.2, f.3, f.4, health_pct-le (in_error l) l.metrics names)

  show_live-IsCoherent :
      (names : List String) (l : Live) (c : Card)
      → (or_text l.status "ok" === "offline") ≡ false
      → IsCoherent (some l) (show_live age names l c)
  unfolding show_live
  show_live-IsCoherent names l c h =
      show_issue-IsCoherent (issue_of l (count_health (in_error l) l.metrics names)) (some l)
        (live_card age names l c) (live_card-IsCoherent names l c h)

  -- Whatever the live data say of a device, or if they say nothing, its card has at most one of the
  -- classes for offline, live, warning and error, the last one just when they say "error"; its badge
  -- shows the state of the class, and an error where they have a status without a class; and its health
  -- bar is at most 100 % wide, if it was.
  pub apply_live-IsCoherent :
      (d : Device) (l : Option Live) (c : Card)
      → c.health_width ≤ 100
      → IsCoherent l (apply_live age d l c)
  unfolding apply_live
  apply_live-IsCoherent d none c h = ground arith
  apply_live-IsCoherent d (some l) c h =
      if-IsCoherent (some l) (or_text l.status "ok" === "offline") (show_unreachable age l c)
        (show_live age d.expected l c) (show_unreachable-IsCoherent l c)
        (show_live-IsCoherent d.expected l c)
