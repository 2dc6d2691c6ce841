-- ===== src/Insights/Events/Sent.antt =====
-- The requests of the events tab and its page of raw events.
use gateway_hub.Insights.Events.{
  kept_value, choose_view, refresh, raw, Device, switch_view, run, ev_refresh, Params,
  set_if_filled, split_key, choose_device, Tab, ev_params, device_key, step,
}
use Prim.Native.String.{String}
use Prim.Native.Char.{code}
use Prim.Native.String
use text.Mathlib.TextLemmas.{
  append-nil, nil-append, cons-append, append-eq-nil_iff, append-ne-nil_of_right_ne-nil,
}
use gateway_hub.Prelude.{
  map, includes, text_differs, text_blank, template, ℕ, List, inr, inl, true, Bool-cases, ◌==◌,
  if◌then◌else◌, false, ◌===◌, Bool, ◌≡◌, [], ◌∷◌, refl,
}

-- Whether the text has a colon.
abbrev pub has_colon : String → Bool
has_colon String.[] = false
has_colon (String.◌∷◌ c s) = if code c == b':' then true else has_colon s

split_key-colon : (id : String) → split_key (String.◌++◌ ":" id) ≡ ("", id)
split_key-colon id = rw (cons-append ":" "" id, nil-append id) refl

split_key-append :
    (source id : String)
    → has_colon source ≡ false
    → split_key (String.◌++◌ source (String.◌++◌ ":" id)) ≡ (source, id)
split_key-append String.[] id h = rw (nil-append (String.◌++◌ ":" id)) (split_key-colon id)
split_key-append (String.◌∷◌ c s) id h = elim (Bool-cases (code c == b':')) [
  | inl e ↦ absurd (cc (rw e at h))
  | inr e ↦ rw (cons-append c s (String.◌++◌ ":" id), e, split_key-append s id (rw e at h)) refl
]

pub split_key-key :
    (source id : String)
    → has_colon source ≡ false
    → split_key (device_key source id) ≡ (source, id)
unfolding template
split_key-key source id h = rw (append-nil id) (split_key-append source id h)

device_key-filled : (source id : String) → (device_key source id === "") ≡ false
unfolding template
device_key-filled source id =
    text_blank (device_key source id) (
      append-ne-nil_of_right_ne-nil source
        (λ e. text_differs ":" "" refl (append-eq-nil_iff.0 e).0))

-- The parameters of the events of one device.
abbrev pub device_params : String → String → String → String → Params
device_params window severity source id =
    ("window", window)
    ∷ set_if_filled "severity" severity (("source", source) ∷ ("device_id", id) ∷ [])

ev_params-device :
    (window severity source id : String)
    → has_colon source ≡ false
    → ev_params window severity (device_key source id) ≡ device_params window severity source id
unfolding ev_params
ev_params-device window severity source id h =
    rw (device_key-filled source id, split_key-key source id h) refl

-- A choice of a device whose source has no colon requests the events of that very device, in the
-- window and of the severity that are chosen, from the first page on.
pub choose_device-requests :
    (t : Tab) (source id : String)
    → has_colon source ≡ false
    → let seen = step t (choose_device (device_key source id)) in
      (seen.sent_events ≡ device_params t.window t.severity source id ∷ t.sent_events)
      × (seen.history.page ≡ 0)
unfolding step
choose_device-requests t source id h =
    (rw (ev_params-device t.window t.severity source id h) refl, refl)

kept_value-gone :
    (key : String) (configured : List Device)
    → includes (map (λ d. device_key d.source d.device_id) configured) key ≡ false
    → kept_value key configured ≡ ""
unfolding kept_value
kept_value-gone key [] h = refl
kept_value-gone key (d ∷ devices) h = elim (Bool-cases (device_key d.source d.device_id === key)) [
  | inl e ↦ absurd (cc (rw e at h))
  | inr e ↦ rw (e, kept_value-gone key devices (rw e at h)) refl
]

-- A device that is chosen and no longer configured: after a refresh the select shows "All devices",
-- while the requests go on asking for that device alone.
pub lost_device :
    (t : Tab) (source id : String) (configured : List Device) (now : ℕ)
    → has_colon source ≡ false
    → includes (map (λ d. device_key d.source d.device_id) configured) (device_key source id)
      ≡ false
    → let seen = run t (choose_device (device_key source id) ∷ refresh false now configured ∷ []) in
      (seen.device_shown ≡ "")
      × ((step seen (choose_view raw)).sent_events
          ≡ device_params t.window t.severity source id ∷ seen.sent_events)
unfolding run step ev_refresh switch_view
lost_device t source id configured now h gone = (
  kept_value-gone (device_key source id) configured gone,
  rw (ev_params-device t.window t.severity source id h) refl,
)
