-- ===== src/Incidents/Drawer.antt =====
-- `attachDrawer` of web_console/static/js/incidents.js: the drawer that an incident opens in, and
-- the answers that fill it. An answer carries the reference that it was requested for, which the
-- code does not look at.
use gateway_hub.Prelude.{
  inr, inl, Bool-cases, ◌≡◌, refl, ◌≢◌, Bool, true, false, List, [], ◌∷◌, String, if◌then◌else◌,
}
use gateway_hub.Incidents.Data.{Incident, Response, failed, refused, answered}

pub data Body : Type 0 where
  blank : Body
  loading : String → Body
  not_found : Body
  not_loaded : Body
  detail : Incident → Body

pub record Drawer : Type 0 where
  pub hidden : Bool
  pub body : Body

pub data Event : Type 0 where
  open_ref : String → Event
  reply : String → Response Incident → Event
  -- the close button, or the one within the detail
  close : Event
  escape : Event

abbrev pub body_of : Response Incident → Body
body_of failed = not_loaded
body_of refused = not_found
body_of (answered i) = detail i

unfoldable pub step : Drawer → Event → Drawer
step d (open_ref ref) = record d { hidden = false; body = loading ref }
step d (reply ref r) = record d { body = body_of r }
step d close = record d { hidden = true }
step d escape = if d.hidden then d else record d { hidden = true }

unfoldable pub run : Drawer → List Event → Drawer
unfolding step
run d [] = d
run d (e ∷ events) = run (step d e) events

-- Whether the drawer is hidden, by the user's own actions alone.
abbrev pub hidden_after : Bool → List Event → Bool
hidden_after h [] = h
hidden_after h (open_ref ref ∷ events) = hidden_after false events
hidden_after h (reply ref r ∷ events) = hidden_after h events
hidden_after h (close ∷ events) = hidden_after true events
hidden_after h (escape ∷ events) = hidden_after true events

-- The drawer is shown by opening an incident and hidden by closing it; an answer, at whatever
-- moment it arrives, does neither.
pub hidden-run :
    (d : Drawer) (events : List Event) → (run d events).hidden ≡ hidden_after d.hidden events
unfolding run
hidden-run d [] = refl
hidden-run d (open_ref ref ∷ events) =
    hidden-run (record d { hidden = false; body = loading ref }) events
hidden-run d (reply ref r ∷ events) = hidden-run (record d { body = body_of r }) events
hidden-run d (close ∷ events) = hidden-run (record d { hidden = true }) events
hidden-run d (escape ∷ events) = elim (Bool-cases d.hidden) [
  | inl h ↦ rw h (rw h at (hidden-run d events))
  | inr h ↦ rw h (hidden-run (record d { hidden = true }) events)
]

-- An answer that arrives after the answer for an incident opened later replaces it: the drawer
-- then shows the incident that was asked for first.
pub late_reply_shown :
    (d : Drawer) (a b : Incident)
    → a.ref ≢ b.ref
    → let seen = run d (
        open_ref a.ref
        ∷ open_ref b.ref
        ∷ reply b.ref (answered b)
        ∷ reply a.ref (answered a)
        ∷ []) in
      (seen.body ≡ detail a) × (seen.body ≢ detail b) × (seen.hidden ≡ false)
unfolding run
late_reply_shown d a b ne = (refl, (λ e. ne (cc)), refl)
