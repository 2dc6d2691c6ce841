-- ===== src/Incidents/PageList.antt =====
-- The lists of incidents that the forwarding page, the events of the insights page and the Edge
-- Server page of web_console/static/js/app.js draw themselves, with the pager of
-- web_console/static/js/incidents.js. These pages look up the buttons of the pager by an attribute.
pub mod Stuck
mod Tests
use gateway_hub.Prelude.Int.{◌+ℤ◌, ◌-ℤ◌, ℤ, pos}
use gateway_hub.Prelude.{
  ◌+◌, ◌&&◌, includes, not, true, false, ◌++◌, keep, ◌==◌, get_elem?, none, length, Bool, ◌-◌,
  if◌then◌else◌, ◌∷◌, Option, String, ℕ, some, List, [],
}
use gateway_hub.Incidents.Data.{Incident, Response, failed, refused, answered}
use gateway_hub.Incidents.Panel.{Summary, incidents_of}
use gateway_hub.Incidents.Paging.{Button, Pager, paginate, pager}

-- The attributes of the buttons that `pagerHtml` writes, in their order.
abbrev pub arrow_attributes : Button → List String
arrow_attributes b =
    if b.disabled
    then "class" ∷ "data-inc-page" ∷ "disabled" ∷ "aria-label" ∷ []
    else "class" ∷ "data-inc-page" ∷ "aria-label" ∷ []

abbrev pub number_attributes : Button → List String
number_attributes b =
    if b.is_current
    then "class" ∷ "data-inc-page" ∷ "aria-current" ∷ []
    else "class" ∷ "data-inc-page" ∷ []

unfoldable pub numbers_attributes : List (Option Button) → List (List String)
numbers_attributes [] = []
numbers_attributes (none ∷ numbers) = numbers_attributes numbers
numbers_attributes (some b ∷ numbers) = number_attributes b ∷ numbers_attributes numbers

unfoldable pub pager_attributes : Pager → List (List String)
unfolding numbers_attributes
pager_attributes p =
    arrow_attributes p.previous ∷ numbers_attributes p.numbers
    ++ (arrow_attributes p.following ∷ [])

abbrev pub one_further : Option ℕ → Option ℕ
one_further none = none
one_further (some i) = some (i + 1)

-- `querySelector("[name]")`: the position of the first button that has the attribute.
unfoldable pub query : String → List (List String) → Option ℕ
query name [] = none
query name (attributes ∷ buttons) =
    let rest = one_further (query name buttons) in if includes attributes name then some 0 else rest

abbrev is_at : Option ℕ → ℕ → Bool
is_at none i = false
is_at (some j) i = j == i

-- A button that is there and not disabled.
abbrev pub is_pressable : Option (List String) → Bool
is_pressable none = false
is_pressable (some attributes) = not (includes attributes "disabled")

-- The elements are the fields of the state; a pager without text is `none`.
pub record PageList : Type 0 where
  pub rows : List Incident
  pub page : ℤ
  pub list : List Incident
  pub pager_shown : Option Pager
  pub empty_hidden : Bool
  pub summary : Option Summary

-- The list before its first answer.
abbrev pub nothing_loaded : PageList
nothing_loaded = record {
  rows = [];
  page = pos 0;
  list = [];
  pager_shown = none;
  empty_hidden = true;
  summary = none;
}

-- The answer's incidents, to be shown from the first page, with counts made from them.
abbrev pub with_incidents : Option (List Incident) → PageList → PageList
with_incidents body p =
    let rows = incidents_of body in
    let open_count = length (keep (λ i. i.ongoing) rows) in
    record p {
      rows = rows;
      page = pos 0;
      summary = some (record {
        active = open_count;
        resolved = length rows - open_count;
        total = length rows;
      });
    }

module _ (per_page : ℕ) where
  unfoldable pub render_rows : PageList → PageList
  render_rows p =
      let cut = paginate p.rows p.page per_page in
      record p {
        page = pos cut.current;
        list = cut.shown;
        pager_shown = pager cut.current cut.page_count (length p.rows);
        empty_hidden = true;
      }

  -- A list without rows keeps its page.
  unfoldable pub render_list : PageList → PageList
  unfolding render_rows
  render_list p =
      if length p.rows == 0
      then record p { list = []; pager_shown = none; empty_hidden = false }
      else render_rows p

  -- A press of the button at a position; one that is disabled cannot be pressed.
  unfoldable pub press_at : List (List String) → ℕ → PageList → PageList
  unfolding query render_list
  press_at buttons i p =
      let pressable = is_pressable (get_elem? buttons i) in
      let back = render_list (record p { page = p.page -ℤ pos 1 }) in
      let on = render_list (record p { page = p.page +ℤ pos 1 }) in
      if pressable && is_at (query "data-inc-page-prev" buttons) i
      then back
      else if pressable && is_at (query "data-inc-page-next" buttons) i
      then on
      else p

  unfoldable pub press_on_pager : Option Pager → ℕ → PageList → PageList
  unfolding press_at pager_attributes
  press_on_pager none i p = p
  press_on_pager (some drawn) i p = press_at (pager_attributes drawn) i p

  unfoldable pub press_button : ℕ → PageList → PageList
  unfolding press_on_pager
  press_button i p = press_on_pager p.pager_shown i p

  unfoldable pub show_incidents : Option (List Incident) → PageList → PageList
  unfolding render_list
  show_incidents body p = render_list (with_incidents body p)

  unfoldable pub receive_incidents : Response (Option (List Incident)) → PageList → PageList
  unfolding show_incidents
  receive_incidents failed p = p
  receive_incidents refused p = p
  receive_incidents (answered body) p = show_incidents body p

-- `fwIncRender` and `fwIncLoad` of the forwarding page.
abbrev pub fw_inc_render : PageList → PageList
fw_inc_render p = render_list 8 p

abbrev pub fw_inc_load : Response (Option (List Incident)) → PageList → PageList
fw_inc_load r p = receive_incidents 8 r p

-- `esIncRender` and `esIncLoad` of the Edge Server page.
abbrev pub es_inc_render : PageList → PageList
es_inc_render p = render_list 8 p

abbrev pub es_inc_load : Response (Option (List Incident)) → PageList → PageList
es_inc_load r p = receive_incidents 8 r p

-- `incRenderList` and `incLoad` of the insights page, whose counts come with the answer.
pub record Answer : Type 0 where
  pub incidents : Option (List Incident)
  pub open_count : Option ℕ
  pub window_count : Option ℕ

abbrev pub or_zero : Option ℕ → ℕ
or_zero none = 0
or_zero (some n) = n

abbrev pub inc_render_list : PageList → PageList
inc_render_list p = render_list 8 p

-- `incRenderSummary`
unfoldable pub inc_render_summary : Answer → PageList → PageList
inc_render_summary a p = record p {
  summary = some (record {
    active = or_zero a.open_count;
    resolved = or_zero a.window_count - or_zero a.open_count;
    total = or_zero a.window_count;
  });
}

abbrev pub with_answer : Answer → PageList → PageList
with_answer a p = record (inc_render_summary a p) { rows = incidents_of a.incidents; page = pos 0 }

unfoldable pub inc_load : Response Answer → PageList → PageList
unfolding render_list
inc_load failed p = p
inc_load refused p = p
inc_load (answered a) p = inc_render_list (with_answer a p)

-- What happens to such a list: the answer to a request, or a press of the pager's button at a
-- position.
pub data Event (R : Type 0) : Type 0 where
  answer : R → Event R
  press : ℕ → Event R

module _ {R : Type 0} (load : R → PageList → PageList) where
  unfoldable pub step : PageList → Event R → PageList
  step p (answer r) = load r p
  step p (press i) = press_button 8 i p

  unfoldable pub run : PageList → List (Event R) → PageList
  unfolding step
  run p [] = p
  run p (e ∷ events) = run (step p e) events
