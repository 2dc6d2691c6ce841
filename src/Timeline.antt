-- ===== src/Timeline.antt =====
-- Lists that web_console/static/js/app.js shows a page at a time behind the buttons "Newer" and
-- "Older": the audit of the forwarding page, the raw events and the detected issues of the insights page. The elements
-- that a renderer writes are fields of the state; a pager that is hidden cannot be pressed and is
-- `none`.
pub mod Shown
use gateway_hub.Prelude.{
  ◌<◌, ◌*◌, true, some, ◌+◌, [], ◌-◌, none, length, Option, ltb, leb, ◌==◌, Bool, String, List,
  if◌then◌else◌, ℕ, ◌∷◌, template, to_string, min, max,
}
use gateway_hub.Incidents.Paging.{slice, ceil_div, count_pages}

-- The two buttons and the label between them; the handlers keep the number of pages of the render
-- that bound them.
pub record Steps : Type 0 where
  pub newer_disabled : Bool
  pub older_disabled : Bool
  pub at : ℕ
  pub count : ℕ
  pub total : ℕ

pub record History {ℓ} (A : Type ℓ) : Type ℓ where
  pub events : List A
  pub page : ℕ
  pub shown : List A
  pub pager : Option Steps
  pub empty_hidden : Bool

pub data Press : Type 0 where
  newer older : Press

unfoldable pub steps_of : ℕ → ℕ → ℕ → Steps
steps_of page count total = record {
  newer_disabled = page == 0;
  older_disabled = leb (count - 1) page;
  at = page;
  count = count;
  total = total;
}

-- The text between the buttons; the list names its entries "events" or "issues".
unfoldable pub label_of : String → Steps → String
label_of noun s = template (
    "Page "
    ∷ to_string (s.at + 1)
    ∷ " of "
    ∷ to_string s.count
    ∷ " · "
    ∷ to_string s.total
    ∷ " "
    ∷ noun
    ∷ [])

module _ {ℓ} {A : Type ℓ} (per_page : ℕ) where
  -- The page that the list is on, no further than the last.
  abbrev pub page_within : History A → ℕ
  page_within h = min h.page (count_pages h.events per_page - 1)

  unfoldable pub render_page : History A → History A
  render_page h =
      let count = count_pages h.events per_page in
      let page = page_within h in
      record h {
        page = page;
        shown = slice (page * per_page) ((page + 1) * per_page) h.events;
        pager = if ltb 1 count then some (steps_of page count (length h.events)) else none;
      }

  -- An empty list keeps its page.
  unfoldable pub render : History A → History A
  unfolding render_page
  render h = if length h.events == 0 then record h { shown = []; pager = none } else render_page h

  unfoldable pub press_on : Option Steps → Press → History A → History A
  unfolding render
  press_on none p h = h
  press_on (some s) newer h =
      if s.newer_disabled then h else render (record h { page = h.page - 1 })
  press_on (some s) older h =
      if s.older_disabled then h else render (record h { page = min (s.count - 1) (h.page + 1) })

  unfoldable pub press : Press → History A → History A
  unfolding press_on
  press p h = press_on h.pager p h

-- The list before its first answer.
abbrev pub not_asked {ℓ} : {A : Type ℓ} → History A
not_asked = record { events = []; page = 0; shown = []; pager = none; empty_hidden = true }
