-- ===== src/Overview/IncidentBand.antt =====
-- The incidents band of the overview in web_console/static/js/app.js: `refreshOverviewIncidents`
-- and `renderOverviewIncidents`.
pub mod Order
use gateway_hub.Prelude.{
  ℕ, ◌≡◌, Bool, true, false, ◌&&◌, ◌||◌, Option, none, some, String, List, [], ◌∷◌, length, keep,
  ltb, leb, ◌==◌, ◌===◌, if◌then◌else◌,
}
use gateway_hub.Prelude.Sort.{sort_by}
use gateway_hub.Prelude.Int.{ℤ, pos}
use gateway_hub.Incidents.Data.{Incident, Response, failed, refused, answered}
use gateway_hub.Incidents.Paging.{Pager, paginate, pager}

-- `RANK[status] ?? 3`
unfoldable pub rank : String → ℕ
rank status =
    if status === "open"
    then 0
    else if status === "recovering"
    then 1
    else if status === "resolved"
    then 2
    else 3

-- Whether the comparator leaves an incident of rank r and start s before one of rank q and start t:
-- `(r - q) || (t - s)` is at most 0.
abbrev pub before : ℕ → ℕ → ℕ → ℕ → Bool
before r s q t = ltb r q || (r == q && leb t s)

unfoldable pub comes_first : Incident → Incident → Bool
unfolding rank
comes_first x y = before (rank x.status) x.started_ms (rank y.status) y.started_ms

-- `.slice().sort(…)`: the browser's sort is stable.
unfoldable pub sort_incidents : List Incident → List Incident
unfolding comes_first
sort_incidents rows = sort_by comes_first rows

-- `all.filter((i) => i.status === status)`
abbrev pub of_status : String → List Incident → List Incident
of_status status rows = keep (λ i. i.status === status) rows

pub record Counts : Type 0 where
  pub active : ℕ
  pub restored : ℕ
  pub closed : ℕ

pub record Band : Type 0 where
  pub rows : List Incident
  pub page : ℤ
  pub is_alert : Bool
  pub counts : Option Counts
  -- Empty with the line "No incidents in the last 24 hours." for no rows.
  pub list : List Incident
  pub pager_shown : Option Pager

abbrev pub per_page : ℕ
per_page = 3

unfoldable pub render : Band → Band
render b =
    let cut = paginate b.rows b.page per_page in
    record b {
      page = pos cut.current;
      list = cut.shown;
      pager_shown = pager cut.current cut.page_count (length b.rows);
    }

-- What the answer assigns before it is rendered.
abbrev pub counted : List Incident → Band → Band
counted all b =
    let open_count = length (of_status "open" all) in
    record b {
      rows = all;
      is_alert = ltb 0 open_count;
      counts = some (record {
        active = open_count;
        restored = length (of_status "recovering" all);
        closed = length (of_status "resolved" all);
      });
    }

abbrev pub cleared : Band → Band
cleared b = record b { rows = []; is_alert = false; counts = none; list = []; pager_shown = none }

-- The `incidents` of an answer; `none` is an answer that has no such field.
abbrev pub incidents_of : Option (List Incident) → List Incident
incidents_of none = []
incidents_of (some rows) = rows

unfoldable pub refresh : Response (Option (List Incident)) → Band → Band
unfolding render sort_incidents
refresh failed b = b
refresh refused b = b
refresh (answered body) b =
    let all = sort_incidents (incidents_of body) in
    if length all == 0 then cleared b else render (counted all b)

-- A press of a button of the pager.
unfoldable pub go : ℤ → Band → Band
unfolding render
go n b = render (record b { page = n })
