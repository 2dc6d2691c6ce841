-- ===== src/EdgeServer/Selection.antt =====
-- The selected alert and the page of the list of the Edge Server page in
-- web_console/static/js/app.js: `esRenderAlertEvents`, `esRefreshAlerts` and the presses.
use gateway_hub.Prelude.{
  ◌*◌, ℕ, ◌+◌, ◌-◌, ◌<◌, ◌≡◌, List, [], ◌∷◌, length, ltb, leb, ◌==◌, if◌then◌else◌, arith,
  Bool-cases, inl, inr,
}
use gateway_hub.Prelude.Int.{ℤ, pos, negsuc}
use gateway_hub.Incidents.Paging.{slice, ceil_div}

-- The cache, the index of the selected alert and the page of the list.
pub record Alerts {ℓ} (A : Type ℓ) : Type ℓ where
  pub events : List A
  pub selected : ℤ
  pub page : ℕ
  pub shown : List A

abbrev pub alerts_per_page : ℕ
alerts_per_page = 10

abbrev pub or_one : ℕ → ℕ
or_one n = if n == 0 then 1 else n

abbrev pub page_count {ℓ} : {A : Type ℓ} → List A → ℕ
page_count rows = or_one (ceil_div (length rows) alerts_per_page)

abbrev min_page : ℕ → ℕ → ℕ
min_page a b = if ltb b a then b else a

-- The two corrections of the index.
abbrev pub kept_index : ℤ → ℕ → ℤ
kept_index (pos i) n = if leb n i then (if n == 0 then negsuc 0 else pos 0) else pos i
kept_index (negsuc i) n = if n == 0 then negsuc i else pos 0

module _ {A : Type 0} where
  -- `esRenderAlertEvents`: the page is left as it is when there is nothing to show.
  unfoldable pub render_alert_events : Alerts A → Alerts A
  render_alert_events a =
      let page = min_page a.page (page_count a.events - 1) in
      if length a.events == 0 then record a { shown = [] } else record a {
        page = page;
        shown = slice (page * alerts_per_page) (page * alerts_per_page + alerts_per_page) a.events;
      }

  -- The answer of `esRefreshAlerts`.
  unfoldable pub refresh : List A → Alerts A → Alerts A
  unfolding render_alert_events
  refresh events a =
      render_alert_events
        (record a { events = events; selected = kept_index a.selected (length events) })

  unfoldable pub reset_selection : Alerts A → Alerts A
  reset_selection a = record a { selected = negsuc 0; page = 0 }

  -- A press of an alert, or of a button of the pager.
  unfoldable pub select : ℕ → Alerts A → Alerts A
  unfolding render_alert_events
  select i a =
      if ltb i (length a.events) then render_alert_events (record a { selected = pos i }) else a

  unfoldable pub newer : Alerts A → Alerts A
  unfolding render_alert_events
  newer a = render_alert_events (record a { page = a.page - 1 })

  unfoldable pub older : Alerts A → Alerts A
  unfolding render_alert_events
  older a =
      render_alert_events (record a { page = min_page (a.page + 1) (page_count a.events - 1) })

pub data Action (A : Type 0) : Type 0 where
  refreshed : List A → Action A
  pressed : ℕ → Action A
  newer_pressed older_pressed : Action A

module _ {A : Type 0} where
  unfoldable pub act : Alerts A → Action A → Alerts A
  unfolding refresh select newer older
  act a (refreshed events) = refresh events a
  act a (pressed i) = select i a
  act a newer_pressed = newer a
  act a older_pressed = older a

  unfoldable pub run : Alerts A → List (Action A) → Alerts A
  run a [] = a
  run a (e ∷ es) = run (act a e) es

-- The selected alert is one of the list, and there is none only without alerts.
abbrev pub Selects : ℤ → ℕ → Type 0
Selects (pos i) n = i < n
Selects (negsuc i) n = n ≡ 0

first_index : (n : ℕ) → Selects (if n == 0 then negsuc 0 else pos 0) n
first_index n = elim (Bool-cases (n == 0)) [
  | inl h ↦ rw h (ground arith)
  | inr h ↦ rw h (ground arith)
]

kept_index-Selects : (i : ℤ) (n : ℕ) → Selects (kept_index i n) n
kept_index-Selects (pos i) n = elim (Bool-cases (leb n i)) [
  | inl h ↦ rw h (first_index n)
  | inr h ↦ rw h (ground arith)
]
kept_index-Selects (negsuc i) n = elim (Bool-cases (n == 0)) [
  | inl h ↦ rw h (ground arith)
  | inr h ↦ rw h (ground arith)
]

module _ {A : Type 0} where
  abbrev Fine : Alerts A → Type 0
  Fine a = Selects a.selected (length a.events)

  render-Fine : (a : Alerts A) → Fine a → Fine (render_alert_events a)
  unfolding render_alert_events
  render-Fine a h = elim (Bool-cases (length a.events == 0)) [ inl e ↦ rw e h | inr e ↦ rw e h ]

  select-Fine : (i : ℕ) (a : Alerts A) → Fine a → Fine (select i a)
  unfolding select
  select-Fine i a h = elim (Bool-cases (ltb i (length a.events))) [
    | inl e ↦ rw e (render-Fine (record a { selected = pos i }) (ground arith))
    | inr e ↦ rw e h
  ]

  refresh-Fine : (events : List A) (a : Alerts A) → Fine (refresh events a)
  unfolding refresh
  refresh-Fine events a =
      render-Fine (record a { events = events; selected = kept_index a.selected (length events) })
        (kept_index-Selects a.selected (length events))

  run-Fine : (a : Alerts A) (es : List (Action A)) → Fine a → Fine (run a es)
  unfolding run act newer older
  run-Fine a [] h = h
  run-Fine a (refreshed events ∷ es) h = run-Fine (refresh events a) es (refresh-Fine events a)
  run-Fine a (pressed i ∷ es) h = run-Fine (select i a) es (select-Fine i a h)
  run-Fine a (newer_pressed ∷ es) h =
      run-Fine (newer a) es (render-Fine (record a { page = a.page - 1 }) h)
  run-Fine a (older_pressed ∷ es) h =
      run-Fine (older a) es
        (render-Fine (record a { page = min_page (a.page + 1) (page_count a.events - 1) }) h)

  -- After an answer with the alerts, whatever was selected before and whatever further answers
  -- and presses follow, the selected alert is one of the list, unless the list is empty.
  pub run-Selects :
      (a : Alerts A) (events : List A) (es : List (Action A))
      → Selects (run (refresh events a) es).selected (length (run (refresh events a) es).events)
  run-Selects a events es = run-Fine (refresh events a) es (refresh-Fine events a)
