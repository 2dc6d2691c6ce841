-- ===== src/Incidents/Panel.antt =====
-- `attachPanel` of web_console/static/js/incidents.js: the list of incidents of one page, with its
-- pager and its counts. The elements that the panel writes are the fields of its state.
use gateway_hub.Prelude.{
  ℕ, ◌-◌, ◌<◌, ◌≡◌, refl, Bool, true, Option, none, some, List, [], ◌∷◌, length, keep, ltb, arith,
}
use gateway_hub.Prelude.Int.{ℤ, pos}
use gateway_hub.Incidents.Data.{Incident, Response, failed, refused, answered}
use gateway_hub.Incidents.Paging.{Pager, paginate, pager}
use gateway_hub.Incidents.Paging.Slices.{paginate_bounds}

-- The numbers of the three summary cards.
pub record Summary : Type 0 where
  pub active : ℕ
  pub resolved : ℕ
  pub total : ℕ

pub record Panel : Type 0 where
  pub rows : List Incident
  pub page : ℤ
  pub empty_hidden : Bool
  pub list : List Incident
  pub pager_shown : Option Pager
  pub summary : Option Summary

-- The panel as `host.innerHTML` makes it.
abbrev pub attached : Panel
attached = record {
  rows = [];
  page = pos 0;
  empty_hidden = true;
  list = [];
  pager_shown = none;
  summary = none;
}

abbrev pub per_page : ℕ
per_page = 8

unfoldable pub render : Panel → Panel
render p =
    let cut = paginate p.rows p.page per_page in
    record p {
      page = pos cut.current;
      empty_hidden = ltb 0 (length p.rows);
      list = cut.shown;
      pager_shown = pager cut.current cut.page_count (length p.rows);
    }

-- The `incidents` of an answer; `none` is an answer that has no such field.
abbrev pub incidents_of : Option (List Incident) → List Incident
incidents_of none = []
incidents_of (some rows) = rows

-- What `load` assigns before it renders.
unfoldable pub reload : Panel → Option (List Incident) → Panel
reload p body =
    let rows = incidents_of body in
    let active = length (keep (λ i. i.ongoing) rows) in
    record p {
      rows = rows;
      summary =
          some (record { active = active; resolved = length rows - active; total = length rows });
    }

unfoldable pub load : Panel → Response (Option (List Incident)) → Panel
load p failed = p
load p refused = p
load p (answered body) = render (reload p body)

-- What happens to a panel: the answer to a request, or a press of a button that carries a page.
pub data Event : Type 0 where
  response : Response (Option (List Incident)) → Event
  go : ℤ → Event

pub step : Panel → Event → Panel
unfolding load
step p (response r) = load p r
step p (go n) = render (record p { page = n })

pub run : Panel → List Event → Panel
run p [] = p
run p (e ∷ events) = run (step p e) events

-- The elements show the page of the rows that the panel is on.
pub record IsRendered (p : Panel) : Type 0 where
  pub page_eq : p.page ≡ pos (paginate p.rows p.page per_page).current
  pub list_eq : p.list ≡ (paginate p.rows p.page per_page).shown
  pub hidden_eq : p.empty_hidden ≡ ltb 0 (length p.rows)
  pub pager_eq :
      p.pager_shown
      ≡ pager
          (paginate p.rows p.page per_page).current
          (paginate p.rows p.page per_page).page_count
          (length p.rows)

render-IsRendered : (p : Panel) → IsRendered (render p)
unfolding render
render-IsRendered p =
    let again = (paginate_bounds p.rows p.page per_page (omega arith)).3 in
    record { page_eq = rw again; list_eq = rw again; hidden_eq = refl; pager_eq = rw again }

step-IsRendered : (p : Panel) (e : Event) → IsRendered p → IsRendered (step p e)
unfolding step
step-IsRendered p (response failed) h = h
step-IsRendered p (response refused) h = h
step-IsRendered p (response (answered body)) h = render-IsRendered (reload p body)
step-IsRendered p (go n) h = render-IsRendered (record p { page = n })

run-IsRendered : (p : Panel) (events : List Event) → IsRendered p → IsRendered (run p events)
unfolding run
run-IsRendered p [] h = h
run-IsRendered p (e ∷ events) h = run-IsRendered (step p e) events (step-IsRendered p e h)

IsRendered-shows : (p : Panel) → IsRendered p → 0 < length p.rows → 0 < length p.list
IsRendered-shows p h r = rw h.list_eq ((paginate_bounds p.rows p.page per_page (omega arith)).2 r)

-- After a first answer, whatever answers and presses follow, in any order, the elements show the
-- page that the panel is on, and a panel that has rows shows at least one.
pub panel_shows_page :
    (p : Panel) (first : Option (List Incident)) (events : List Event)
    → IsRendered (run (load p (answered first)) events)
      × (0 < length (run (load p (answered first)) events).rows
          → 0 < length (run (load p (answered first)) events).list)
unfolding load
panel_shows_page p first events =
    let h = run-IsRendered (render (reload p first)) events (render-IsRendered (reload p first)) in
    (h, IsRendered-shows (run (render (reload p first)) events) h)
