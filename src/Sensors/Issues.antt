-- ===== src/Sensors/Issues.antt =====
-- The list of detected issues, `svRenderIssues`: the anomalies of the range, grouped by metric,
-- category and severity, the groups sorted by their latest event. A field that is missing is printed
-- in a group's key as `undefined`, as a template literal prints it.
pub mod Groups
use gateway_hub.Prelude.{
  ◌++◌, not, keep, includes, ◌===◌, ltb, leb, if◌then◌else◌, none, length, to_string, or_text, some,
  Bool, List, template, ◌+◌, String, ℕ, Option, [], ◌∷◌,
}
use gateway_hub.Prelude.Sort.{sort_by}
use gateway_hub.Timeline.{History, Press, press, render}

pub record Anomaly : Type 0 where
  pub ts_ms : ℕ
  pub metric : Option String
  pub metric_label : Option String
  pub alarm_name : Option String
  pub category : Option String
  pub severity : Option String
  pub detector : Option String

abbrev pub printed : Option String → String
printed none = "undefined"
printed (some s) = s

-- `gKey`, and `svAnomId`
unfoldable pub group_key : Anomaly → String
group_key e = template (printed e.metric ∷ "|" ∷ printed e.category ∷ "|" ∷ printed e.severity ∷ [])

unfoldable pub anomaly_id : Anomaly → String
anomaly_id e = template (to_string e.ts_ms ∷ "|" ∷ printed e.metric ∷ "|" ∷ printed e.detector ∷ [])

pub record Group : Type 0 where
  pub key : String
  pub metric : Option String
  pub label : String
  pub category : Option String
  pub severity : Option String
  pub count : ℕ
  pub latest : Anomaly

-- `svExpandedIssues` as the list of its keys.
abbrev pub toggle : String → List String → List String
toggle key expanded =
    if includes expanded key then keep (λ k. not (k === key)) expanded else expanded ++ (key ∷ [])

-- `b.latest.ts_ms - a.latest.ts_ms`
abbrev pub later : Group → Group → Bool
later a b = leb b.latest.ts_ms a.latest.ts_ms

abbrev pub issues_per_page : ℕ
issues_per_page = 6

pub record Issues : Type 0 where
  pub anomalies : List Anomaly
  pub badge : String
  pub list : History Group
  pub expanded : List String

-- What happens to the list: the anomalies of another answer, which a change of the range may
-- precede; a press of the pager; a press on a row.
pub data Event : Type 0 where
  loaded : List Anomaly → Event
  range_changed : Event
  turn : Press → Event
  toggled : String → Event

-- `g.count++`, and the later of the two events.
unfoldable pub count_in : Anomaly → Group → Group
count_in e g = record g {
  count = g.count + 1;
  latest = if ltb g.latest.ts_ms e.ts_ms then e else g.latest;
}

module _ (display : String → String) where
  -- The group of its first event, before that event is counted.
  unfoldable pub new_group : Anomaly → Group
  unfolding group_key
  new_group e = record {
    key = group_key e;
    metric = e.metric;
    label = or_text e.metric_label (display (or_text e.metric (or_text e.alarm_name "")));
    category = e.category;
    severity = e.severity;
    count = 0;
    latest = e;
  }

  unfoldable pub add_event : Anomaly → List Group → List Group
  unfolding new_group count_in
  add_event e [] = count_in e (new_group e) ∷ []
  add_event e (g ∷ groups) =
      let rest = add_event e groups in
      if g.key === group_key e then count_in e g ∷ groups else g ∷ rest

  unfoldable pub group_from : List Group → List Anomaly → List Group
  unfolding add_event
  group_from groups [] = groups
  group_from groups (e ∷ events) = group_from (add_event e groups) events

  unfoldable pub issues : List Anomaly → List Group
  unfolding group_from
  issues events = sort_by later (group_from [] events)

  -- Without anomalies the page of the list stays.
  unfoldable pub render_issues : Issues → Issues
  unfolding issues
  render_issues s = record s {
    badge = to_string (length s.anomalies);
    list = render issues_per_page (record s.list { events = issues s.anomalies });
  }

  unfoldable pub step : Issues → Event → Issues
  unfolding render_issues
  step s (loaded anomalies) = render_issues (record s { anomalies = anomalies })
  step s range_changed = record s { list = record s.list { page = 0 }; expanded = [] }
  step s (turn p) = record s { list = press issues_per_page p s.list }
  step s (toggled key) = render_issues (record s { expanded = toggle key s.expanded })
