-- ===== src/Forwarding/Audit/Tests.antt =====
-- The audit at a list of eleven events, whose pager leads to a second page.
use gateway_hub.Incidents.Paging.{count_pages}
use gateway_hub.Timeline.Shown.{read_through}
use gateway_hub.Forwarding.Audit.Shown.{choose-read_all, audit_shows_page, IsShown}
use gateway_hub.Prelude.{
  length, ◌<◌, ◌≡◌, none, map, some, true, to_string, List, ℕ, String, [], ◌∷◌, refl,
}
use gateway_hub.Forwarding.Audit.{
  audit_per_page, render_audit, show_audit, answered, request, choose, press_button, AuditEvent,
  receive_audit, event_label, step, AuditBody, Audit, Event, answer, run,
}
use gateway_hub.Timeline.{render, press, steps_of, press_on, render_page, newer, older, not_asked}

abbrev outage : ℕ → AuditEvent
outage ms = record {
  timestamp = some ms;
  severity = some "error";
  profile = some "Plant";
  kind = some "outage_started";
  reason = none;
  message = some "timeout";
  protocol = some "mqtt";
}

abbrev eleven : List AuditEvent
eleven = map outage (11 ∷ 10 ∷ 9 ∷ 8 ∷ 7 ∷ 6 ∷ 5 ∷ 4 ∷ 3 ∷ 2 ∷ 1 ∷ [])

abbrev body : AuditBody
body = record {
  ok = true;
  events = some eleven;
  outages = some 11;
  recovered = none;
  errors = none;
}

abbrev before : Audit
before = record {
  history = not_asked;
  outages = "";
  recovered = "";
  errors = "";
  longest = "";
  window = some "7d";
  export_href = "";
}

abbrev same : String → String
same s = s

abbrev presses : List Event
presses = press_button older ∷ press_button newer ∷ choose "30d" ∷ press_button older ∷ []

audit_shows_page_example :
    let seen = run same to_string before (request ∷ answer (answered body) ∷ presses) in
    IsShown same to_string seen × (0 < length seen.history.events → 0 < length seen.history.shown)
audit_shows_page_example = audit_shows_page same to_string before body presses refl

choose-read_all_example :
    let seen = run same to_string before (choose "30d" ∷ answer (answered body) ∷ []) in
    read_through audit_per_page (count_pages eleven audit_per_page) seen.history ≡ eleven
choose-read_all_example = choose-read_all same to_string before "30d" body refl

-- The second page shows the oldest event.
run-older :
    (run same to_string before
      (request ∷ answer (answered body) ∷ press_button older ∷ [])).history.shown
    ≡ outage 1 ∷ []
unfolding run step receive_audit show_audit render_audit render render_page press press_on steps_of
run-older = refl

event_label-other : event_label (some "tls_error") ≡ "tls error"
unfolding event_label
event_label-other = refl
