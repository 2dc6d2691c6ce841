-- ===== src/Forwarding/Audit/Shown.antt =====
-- What the audit of the forwarding page shows after its answers, presses and choices of a window.
use gateway_hub.Incidents.Paging.{count_pages}
use gateway_hub.Incidents.Data.{refused, failed}
use gateway_hub.Forwarding.Audit.{
  events_of, Press, request, press_button, choose, answered, answer, ◌∷◌, AuditBody,
  build_audit_url, Event, audit_per_page, render_audit, receive_audit, step, show_audit, run, Audit,
}
use gateway_hub.Prelude.{
  ◌===◌, if◌then◌else◌, none, template, Option, some, false, ◌==◌, min, ◌-◌, ◌∙◌, arith, ◌<◌, refl,
  inr, inl, Bool-cases, [], length, true, ltb, List, ◌≡◌, ℕ, String,
}
use gateway_hub.Timeline.Shown.{
  landing, press-eq, render-eq, Shows, render-Shows, press-Shows, Shows-filled, read_through,
  read_all,
}

-- The address of the download for the value of the window's select: that of a missing or empty one is
-- for 30 days.
abbrev pub export_of : (String → String) → Option String → String
export_of encode none =
    template ("/api/forwarding/events" ∷ "/export/csv" ∷ "?window=" ∷ encode "30d" ∷ [])
export_of encode (some w) = template (
    "/api/forwarding/events"
    ∷ "/export/csv"
    ∷ "?window="
    ∷ encode (if w === "" then "30d" else w)
    ∷ [])

export-eq :
    (encode : String → String) (window : Option String)
    → build_audit_url encode true window ≡ export_of encode window
unfolding build_audit_url
export-eq encode none = refl
export-eq encode (some w) = refl

module _ (encode : String → String) (grouped : ℕ → String) where
  -- The list and the pager show one page of the events, the line for an empty list is hidden if there
  -- are events, and the export's link asks for the window that is chosen.
  pub record IsShown (a : Audit) : Type 0 where
    pub at : ℕ
    pub shows : Shows audit_per_page at a.history
    pub hidden_eq : a.history.empty_hidden ≡ ltb 0 (length a.history.events)
    pub export_eq : a.export_href ≡ export_of encode a.window

  HasExport : Audit → Type 0
  HasExport a = a.export_href ≡ export_of encode a.window

  show_audit-IsShown :
      (b : AuditBody) (a : Audit) → HasExport a → IsShown (show_audit encode grouped b a)
  unfolding show_audit HasExport render_audit
  show_audit-IsShown b a e =
      let events = events_of b.events in
      let h = record a.history { events = events; empty_hidden = ltb 0 (length events) } in
      let kept = render-eq audit_per_page h in
      record {
        at = landing audit_per_page h;
        shows = render-Shows audit_per_page h;
        hidden_eq = kept.2 ∙ rw kept.0 refl;
        export_eq = e;
      }

  press-IsShown :
      (p : Press) (a : Audit) → IsShown a → IsShown (step encode grouped a (press_button p))
  unfolding step
  press-IsShown p a s =
      let moved = press-Shows audit_per_page p s.at a.history s.shows in
      let kept = press-eq audit_per_page p a.history in
      record {
        at = moved.0;
        shows = moved.1;
        hidden_eq = kept.1 ∙ rw kept.0 s.hidden_eq;
        export_eq = s.export_eq;
      }

  step-IsShown : (a : Audit) (e : Event) → IsShown a → IsShown (step encode grouped a e)
  unfolding step receive_audit HasExport
  step-IsShown a request s = record {
    at = s.at;
    shows = record {
      at_lt = s.shows.at_lt;
      shown_eq = s.shows.shown_eq;
      pager_eq = s.shows.pager_eq;
    };
    hidden_eq = s.hidden_eq;
    export_eq = export-eq encode a.window;
  }
  step-IsShown a (answer failed) s = s
  step-IsShown a (answer refused) s = s
  step-IsShown a (answer (answered b)) s = elim (Bool-cases b.ok) [
    | inl e ↦ rw e (show_audit-IsShown b a s.export_eq)
    | inr e ↦ rw e s
  ]
  step-IsShown a (choose w) s = record {
    at = s.at;
    shows = record {
      at_lt = s.shows.at_lt;
      shown_eq = s.shows.shown_eq;
      pager_eq = s.shows.pager_eq;
    };
    hidden_eq = s.hidden_eq;
    export_eq = export-eq encode (some w);
  }
  step-IsShown a (press_button p) s = press-IsShown p a s

  run-IsShown :
      (a : Audit) (events : List Event) → IsShown a → IsShown (run encode grouped a events)
  unfolding run
  run-IsShown a [] s = s
  run-IsShown a (e ∷ events) s = run-IsShown (step encode grouped a e) events (step-IsShown a e s)

  -- Whatever requests, answers, presses and choices of a window follow, in any order, the request
  -- and the first answer that is ok: the list and the pager show one page of the events, which has an
  -- event if there is one; the line for an empty list is hidden if and only if there are events; and
  -- the export's link is the address of the download for the window that is chosen, or for 30 days where
  -- none is.
  pub audit_shows_page :
      (a : Audit) (b : AuditBody) (events : List Event)
      → b.ok ≡ true
      → let seen = run encode grouped a (request ∷ answer (answered b) ∷ events) in
        IsShown seen × (0 < length seen.history.events → 0 < length seen.history.shown)
  unfolding run step receive_audit HasExport
  audit_shows_page a b events ok =
      let asked = step encode grouped a request in
      let first = show_audit-IsShown b asked (export-eq encode a.window) in
      let s = run-IsShown (show_audit encode grouped b asked) events first in
      rw ok (s, Shows-filled audit_per_page s.at _ (omega arith) s.shows)

  -- Another window is read from its first page: after the choice and the next answer that is ok, the
  -- list shows, before and after each press of "Older" up to the last page, all events of the answer,
  -- in their order and each once.
  pub choose-read_all :
      (a : Audit) (w : String) (b : AuditBody)
      → b.ok ≡ true
      → let seen = run encode grouped a (choose w ∷ answer (answered b) ∷ []) in
        let events = events_of b.events in
        read_through audit_per_page (count_pages events audit_per_page) seen.history ≡ events
  unfolding run step receive_audit show_audit render_audit
  choose-read_all a w b ok =
      let events = events_of b.events in
      let h = record a.history {
        events = events;
        page = 0;
        empty_hidden = ltb 0 (length events);
      } in
      rw ok (read_all audit_per_page h (omega arith) refl)

  -- An answer that is ok and has events leaves the reader on the page that they are on, which then
  -- shows the new events; a page that the new events do not reach gives way to their last one.
  pub answer-keeps_page :
      (a : Audit) (b : AuditBody)
      → b.ok ≡ true
      → 0 < length (events_of b.events)
      → let last = count_pages (events_of b.events) audit_per_page - 1 in
        let seen = step encode grouped a (answer (answered b)) in
        (seen.history.page ≡ min a.history.page last)
        × Shows audit_per_page (min a.history.page last) seen.history
  unfolding step receive_audit show_audit render_audit
  answer-keeps_page a b ok full =
      let events = events_of b.events in
      let h = record a.history { events = events; empty_hidden = ltb 0 (length events) } in
      let some_event : (length events == 0) ≡ false = ground arith in
      rw ok (
        rw some_event at (render-eq audit_per_page h).1,
        rw some_event at (render-Shows audit_per_page h),
      )
