-- ===== src/Forwarding/Audit.antt =====
-- The audit of outages and errors on the forwarding page of web_console/static/js/app.js:
-- `fwRenderAuditPage`, `fwRefreshAudit`, the choice of its window, and the texts of a row. The
-- functions of the browser are parameters: `date` is `toLocaleString` of a time, `grouped` that of a
-- number, `upper` is `toUpperCase` and `encode` is `encodeURIComponent`.
use gateway_hub.Incidents.Data.{failed, refused, answered, Response}
use gateway_hub.Timeline.{Press, press, render, History}
use gateway_hub.Prelude.{
  [], String, ◌+◌, ◌||◌, ◌==◌, length, ◌===◌, lookup_in, none, template, true, some, if◌then◌else◌,
  ltb, ◌∷◌, or_text, List, Bool, Option, ℕ,
}
pub mod Shown
mod Tests
use Prim.Native.Char.{code}
use Prim.Native.String
use gateway_hub.Incidents.Escape.{codes, esc}

pub record AuditEvent : Type 0 where
  pub timestamp : Option ℕ
  pub severity : Option String
  pub profile : Option String
  pub kind : Option String
  pub reason : Option String
  pub message : Option String
  pub protocol : Option String

pub data SeverityClass : Type 0 where
  is_err is_warn is_ok : SeverityClass

-- `_fwSeverityClass`
unfoldable pub severity_class : Option String → SeverityClass
severity_class none = is_ok
severity_class (some s) =
    if s === "error" || s === "critical" then is_err else if s === "warning" then is_warn else is_ok

-- `s.replaceAll("_", " ")`
abbrev pub spaced : String → String
spaced String.[] = ""
spaced (String.◌∷◌ c s) =
    let rest = spaced s in if code c == b'_' then String.◌++◌ " " rest else String.◌∷◌ c rest

abbrev labels : List (String × String)
labels =
    ("outage_started", "Outage started")
    ∷ ("outage_recovered", "Recovered")
    ∷ ("buffer_eviction", "Buffer eviction")
    ∷ []

-- `_fwEventLabel`
unfoldable pub event_label : Option String → String
event_label none = "event"
event_label (some kind) = or_text (lookup_in kind labels) (spaced (or_text (some kind) "event"))

-- `_fwEventReason`
unfoldable pub event_reason : AuditEvent → String
event_reason e = or_text e.reason (or_text e.message "No reason recorded.")

-- A row: its class, and its texts as code points, escaped.
pub record AuditRow : Type 0 where
  pub cls : SeverityClass
  pub time : List ℕ
  pub label : List ℕ
  pub profile : List ℕ
  pub severity : List ℕ
  pub reason : List ℕ
  pub protocol : List ℕ

-- `_fwEsc`
abbrev pub fw_esc : String → List ℕ
fw_esc s = esc (codes s)

module _ (date : ℕ → String) where
  -- `_fwDateTime`; 0 is no time.
  unfoldable pub fw_date_time : Option ℕ → String
  fw_date_time none = "—"
  fw_date_time (some ms) = if ms == 0 then "—" else date ms

  unfoldable pub audit_row : (String → String) → AuditEvent → AuditRow
  unfolding fw_date_time severity_class event_label event_reason
  audit_row upper e = record {
    cls = severity_class e.severity;
    time = fw_esc (fw_date_time e.timestamp);
    label = fw_esc (event_label e.kind);
    profile = fw_esc (or_text e.profile "Unknown profile");
    severity = fw_esc (or_text e.severity "info");
    reason = fw_esc (event_reason e);
    protocol = fw_esc (upper (or_text e.protocol ""));
  }

-- `_fwBuildAuditUrl`, of the value of the window's select, which may be missing.
unfoldable pub build_audit_url : (String → String) → Bool → Option String → String
build_audit_url encode csv window = template (
    "/api/forwarding/events"
    ∷ (if csv then "/export/csv" else "")
    ∷ "?window="
    ∷ encode (or_text window (if csv then "30d" else "7d"))
    ∷ [])

pub record AuditBody : Type 0 where
  pub ok : Bool
  pub events : Option (List AuditEvent)
  pub outages : Option ℕ
  pub recovered : Option ℕ
  pub errors : Option ℕ

pub record Audit : Type 0 where
  pub history : History AuditEvent
  pub outages : String
  pub recovered : String
  pub errors : String
  pub longest : String
  pub window : Option String
  pub export_href : String

-- `n || 0` of a number that may be missing.
abbrev or_zero : Option ℕ → ℕ
or_zero none = 0
or_zero (some n) = n

abbrev pub events_of : Option (List AuditEvent) → List AuditEvent
events_of none = []
events_of (some events) = events

abbrev pub audit_per_page : ℕ
audit_per_page = 10

-- `fwRenderAuditPage`
unfoldable pub render_audit : History AuditEvent → History AuditEvent
render_audit h = render audit_per_page h

-- What happens to the audit: a request is sent, as by the timer; an answer arrives; another window
-- is chosen, which also sends a request; a button of the pager is pressed.
pub data Event : Type 0 where
  request : Event
  answer : Response AuditBody → Event
  choose : String → Event
  press_button : Press → Event

module _ (encode : String → String) (grouped : ℕ → String) where
  -- What an answer that is ok writes.
  unfoldable pub show_audit : AuditBody → Audit → Audit
  unfolding render_audit
  show_audit b a =
      let events = events_of b.events in
      record a {
        history =
            render_audit
              (record a.history { events = events; empty_hidden = ltb 0 (length events) });
        outages = grouped (or_zero b.outages);
        recovered = grouped (or_zero b.recovered);
        errors = grouped (or_zero b.errors);
        longest = "—";
      }

  -- `fwRefreshAudit`, past its request.
  unfoldable pub receive_audit : Response AuditBody → Audit → Audit
  unfolding show_audit
  receive_audit failed a = a
  receive_audit refused a = a
  receive_audit (answered b) a = if b.ok then show_audit b a else a

  unfoldable pub step : Audit → Event → Audit
  unfolding receive_audit build_audit_url
  step a request = record a { export_href = build_audit_url encode true a.window }
  step a (answer r) = receive_audit r a
  step a (choose w) = record a {
    window = some w;
    export_href = build_audit_url encode true (some w);
    history = record a.history { page = 0 };
  }
  step a (press_button p) = record a { history = press audit_per_page p a.history }

  unfoldable pub run : Audit → List Event → Audit
  unfolding step
  run a [] = a
  run a (e ∷ events) = run (step a e) events
