-- ===== src/Insights/Events/Current.antt =====
-- The filters, the requests and the list of the events tab agree.
use gateway_hub.Insights.Events.Carries.{
  CarriesEvents, CarriesIncidents, Latest, ev_params-CarriesEvents, inc_params-CarriesIncidents,
}
use gateway_hub.Incidents.Data.{refused, failed}
use gateway_hub.Insights.Events.{
  press_incidents, press_events, incidents_reply, raw_of, answered, events_reply, choose_inc_window,
  choose_domain, choose_view, choose_status, refresh, raw, choose_window, incidents,
  choose_severity, update_device_filter, opened, Device, switch_view, receive_incidents, is_due,
  Event, run, refresh_view, render_timeline, ev_refresh, receive_events, ev_per_page, RawEvent,
  History, View, choose_device, Tab, step,
}
use gateway_hub.Prelude.{arith, ℕ, List, inr, inl, Bool-cases, Bool, [], ◌∷◌, refl}
use gateway_hub.Timeline.Shown.{Shows, render-Shows, press-Shows}

-- The latest request of each view carries the filters that are chosen, and the list shows one page of
-- the events.
pub record IsCurrent (t : Tab) : Type 0 where
  pub events_latest : Latest (CarriesEvents t) t.sent_events
  pub incidents_latest : Latest (CarriesIncidents t) t.sent_incidents
  pub at : ℕ
  pub shows : Shows ev_per_page at t.history

on_page :
    (h : History RawEvent) (n at : ℕ)
    → Shows ev_per_page at h
    → Shows ev_per_page at (record h { page = n })
on_page h n at s = record { at_lt = s.at_lt; shown_eq = s.shown_eq; pager_eq = s.pager_eq }

refresh_view-IsCurrent :
    (v : View) (now : ℕ) (t : Tab) → IsCurrent t → IsCurrent (refresh_view v now t)
unfolding refresh_view
refresh_view-IsCurrent incidents now t c = elim (Bool-cases (is_due t.inc_last_fetch now)) [
  | inl e ↦ rw e (record {
    events_latest = c.events_latest;
    incidents_latest = inc_params-CarriesIncidents t;
    at = c.at;
    shows = c.shows;
  })
  | inr e ↦ rw e c
]
refresh_view-IsCurrent raw now t c = elim (Bool-cases (is_due t.last_fetch now)) [
  | inl e ↦ rw e (record {
    events_latest = ev_params-CarriesEvents t;
    incidents_latest = c.incidents_latest;
    at = c.at;
    shows = c.shows;
  })
  | inr e ↦ rw e c
]

ev_refresh-IsCurrent :
    (active : Bool) (now : ℕ) (configured : List Device) (t : Tab)
    → IsCurrent t
    → IsCurrent (ev_refresh active now configured t)
unfolding ev_refresh
ev_refresh-IsCurrent active now configured t c =
    let u = update_device_filter configured t in
    let k : IsCurrent u = record {
      events_latest = c.events_latest;
      incidents_latest = c.incidents_latest;
      at = c.at;
      shows = c.shows;
    } in
    elim (Bool-cases active) [
      | inl e ↦ rw e (refresh_view-IsCurrent t.view now u k)
      | inr e ↦ rw e k
    ]

timeline-Shows : (h : History RawEvent) → (at : ℕ) × Shows ev_per_page at (render_timeline h)
unfolding render_timeline
timeline-Shows h =
    let s = render-Shows ev_per_page h in
    (_, record { at_lt = s.at_lt; shown_eq = s.shown_eq; pager_eq = s.pager_eq })

step-IsCurrent : (t : Tab) (e : Event) → IsCurrent t → IsCurrent (step t e)
unfolding step receive_events receive_incidents switch_view
step-IsCurrent t (choose_severity s) c = record {
  events_latest = ev_params-CarriesEvents (step t (choose_severity s));
  incidents_latest = c.incidents_latest;
  at = c.at;
  shows = on_page t.history 0 c.at c.shows;
}
step-IsCurrent t (choose_device k) c = record {
  events_latest = ev_params-CarriesEvents (step t (choose_device k));
  incidents_latest = c.incidents_latest;
  at = c.at;
  shows = on_page t.history 0 c.at c.shows;
}
step-IsCurrent t (choose_window w) c = record {
  events_latest = ev_params-CarriesEvents (step t (choose_window w));
  incidents_latest = c.incidents_latest;
  at = c.at;
  shows = on_page t.history 0 c.at c.shows;
}
step-IsCurrent t (choose_status s) c = record {
  events_latest = c.events_latest;
  incidents_latest = inc_params-CarriesIncidents (step t (choose_status s));
  at = c.at;
  shows = c.shows;
}
step-IsCurrent t (choose_domain d) c = record {
  events_latest = c.events_latest;
  incidents_latest = inc_params-CarriesIncidents (step t (choose_domain d));
  at = c.at;
  shows = c.shows;
}
step-IsCurrent t (choose_inc_window w) c = record {
  events_latest = c.events_latest;
  incidents_latest = inc_params-CarriesIncidents (step t (choose_inc_window w));
  at = c.at;
  shows = c.shows;
}
step-IsCurrent t (choose_view incidents) c = record {
  events_latest = c.events_latest;
  incidents_latest = inc_params-CarriesIncidents (step t (choose_view incidents));
  at = c.at;
  shows = c.shows;
}
step-IsCurrent t (choose_view raw) c = record {
  events_latest = ev_params-CarriesEvents (step t (choose_view raw));
  incidents_latest = c.incidents_latest;
  at = c.at;
  shows = c.shows;
}
step-IsCurrent t (refresh active now configured) c = ev_refresh-IsCurrent active now configured t c
step-IsCurrent t (events_reply now failed) c = c
step-IsCurrent t (events_reply now refused) c = c
step-IsCurrent t (events_reply now (answered body)) c =
    let s = timeline-Shows (record t.history { events = raw_of body }) in
    record {
      events_latest = c.events_latest;
      incidents_latest = c.incidents_latest;
      at = s.0;
      shows = s.1;
    }
step-IsCurrent t (incidents_reply now failed) c = c
step-IsCurrent t (incidents_reply now refused) c = c
step-IsCurrent t (incidents_reply now (answered a)) c = record {
  events_latest = c.events_latest;
  incidents_latest = c.incidents_latest;
  at = c.at;
  shows = c.shows;
}
step-IsCurrent t (press_events p) c =
    let s = press-Shows ev_per_page p c.at t.history c.shows in
    record {
      events_latest = c.events_latest;
      incidents_latest = c.incidents_latest;
      at = s.0;
      shows = s.1;
    }
step-IsCurrent t (press_incidents i) c = record {
  events_latest = c.events_latest;
  incidents_latest = c.incidents_latest;
  at = c.at;
  shows = c.shows;
}

run-from : (t : Tab) (events : List Event) → IsCurrent t → IsCurrent (run t events)
unfolding run
run-from t [] c = c
run-from t (e ∷ events) c = run-from (step t e) events (step-IsCurrent t e c)

-- Whatever choices, timers, answers and presses follow the opening of the tab, in any order: the
-- latest request of either view carries the window and the severity, status, domain and device that are
-- chosen, and none that is not; and the list of raw events shows one page of the answer, which its pager
-- tells.
pub run-IsCurrent : (events : List Event) → IsCurrent (run opened events)
run-IsCurrent events = run-from opened events (record {
  events_latest = tt;
  incidents_latest = tt;
  at = 0;
  shows = record { at_lt = omega arith; shown_eq = refl; pager_eq = refl };
})
