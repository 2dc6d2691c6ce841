-- ===== src/Forwarding/StatusCard.antt =====
-- A card of the live status on the forwarding page of web_console/static/js/app.js, and what
-- `fwRefreshStatus` shows around the cards. `date`, `clock` and `grouped` are the browser's formats of
-- a time, of the time of day and of a number; texts that the code escapes are lists of code points.
pub mod Agreement
mod Tests
use gateway_hub.Format.{fw_ago, fw_dur, never, unknown, Span, Ago}
use gateway_hub.Prelude.{
  template, ◌∷◌, ◌===◌, ◌==◌, ◌/◌, ◌++◌, truthy, lookup_in, none, false, some, or_text, [], map,
  ◌-◌, true, if◌then◌else◌, String, Bool, List, ℕ, Option,
}
use gateway_hub.Forwarding.Status.{
  Item, StateClass, Banner, Line, state_label, state_class, buffer_line, fail_reason,
  pipeline_alert,
}
use gateway_hub.Forwarding.Audit.{fw_esc, fw_date_time}
use gateway_hub.Forwarding.Buffer.{Meta}
use gateway_hub.Incidents.Data.{Response, failed, refused, answered}

-- An item of the answer, with the fields that only the cards read; a time of 0 is a missing one.
pub record Entry : Type 0 where
  pub item : Item
  pub profile_id : Option String
  -- `broker` of an MQTT item, `endpoint` of an HTTPS one
  pub destination : String
  pub tls : Bool
  pub connected_since : ℕ
  -- `last_publish_at_ms` of an MQTT item, `last_post_at_ms` of an HTTPS one
  pub last_message_ms : ℕ
  pub last_error_at_ms : ℕ

pub record Alert : Type 0 where
  pub reason : List ℕ
  -- none when the time of the last try is not known
  pub tried : Option (List ℕ)

pub record StatusCard : Type 0 where
  pub cls : StateClass
  pub badge : String
  pub name : List ℕ
  pub state : List ℕ
  pub destination : List ℕ
  pub has_tls_chip : Bool
  pub alert : Option Alert
  pub count : String
  pub count_label : String
  pub uptime : Span
  pub last_delivery : Ago
  pub buffer : Line

abbrev name_in : Option String → List (String × Meta) → Option String
name_in none names = none
name_in (some id) names = elim (lookup_in id names) [ none ↦ none | some m ↦ some m.name ]

-- `(profile_id && fwConfigNameMap[profile_id]?.name) || profile_name || "Unnamed Profile"`
unfoldable pub profile_name : List (String × Meta) → Entry → String
profile_name names e =
    let own = or_text e.item.profile_name "Unnamed Profile" in
    if truthy e.profile_id then or_text (name_in e.profile_id names) own else own

-- `Math.max(0, Math.floor((now - ms) / 1000))`
abbrev pub seconds_since : ℕ → ℕ → ℕ
seconds_since now ms = (now - ms) / 1000

abbrev uptime_of : ℕ → ℕ → Span
uptime_of now since = if since == 0 then unknown else fw_dur (some (seconds_since now since))

abbrev delivery_of : ℕ → ℕ → Ago
delivery_of now ms = if ms == 0 then never else fw_ago (some (seconds_since now ms))

module _ (date : ℕ → String) (grouped : ℕ → String) (now : ℕ) where
  unfoldable pub alert_of : Entry → Option Alert
  unfolding fail_reason fw_date_time
  alert_of e =
      let reason = fail_reason grouped e.item in
      if reason === ""
      then none
      else some (record {
        reason = fw_esc reason;
        tried =
            if e.last_error_at_ms == 0
            then none
            else some (fw_esc (fw_date_time date (some e.last_error_at_ms)));
      })

  unfoldable pub status_card : List (String × Meta) → Entry → StatusCard
  unfolding profile_name alert_of
  status_card names e = record {
    cls = state_class e.item;
    badge = if e.item.is_mqtt then "MQTT" else "HTTPS";
    name = fw_esc (profile_name names e);
    state = fw_esc (state_label e.item);
    destination = fw_esc e.destination;
    has_tls_chip = e.tls;
    alert = alert_of e;
    count = grouped e.item.count;
    count_label = if e.item.is_mqtt then "Published" else "Sent";
    uptime = uptime_of now e.connected_since;
    last_delivery = delivery_of now e.last_message_ms;
    buffer = buffer_line grouped e.item;
  }

-- The elements that `fwRefreshStatus` writes.
pub record StatusPanel : Type 0 where
  pub hidden : Bool
  pub no_profiles_hidden : Bool
  pub updated : String
  pub banner : Banner
  pub cards : List StatusCard

pub record StatusBody : Type 0 where
  pub ok : Bool
  pub mqtt : Option (List Entry)
  pub https : Option (List Entry)

abbrev entries_of : Option (List Entry) → List Entry
entries_of none = []
entries_of (some entries) = entries

abbrev pub as_mqtt : Bool → Entry → Entry
as_mqtt b e = record e { item = record e.item { is_mqtt = b } }

abbrev pub all_entries : StatusBody → List Entry
all_entries b = map (as_mqtt true) (entries_of b.mqtt) ++ map (as_mqtt false) (entries_of b.https)

module _ (date clock grouped : ℕ → String) where
  -- A list that is empty hides the panel, whose other elements stay as they are.
  unfoldable pub show_status : ℕ → List (String × Meta) → List Entry → StatusPanel → StatusPanel
  unfolding status_card
  show_status now names [] p = record p { hidden = true; no_profiles_hidden = false }
  show_status now names (e ∷ entries) p = record {
    hidden = false;
    no_profiles_hidden = true;
    updated = template ("Updated " ∷ clock now ∷ []);
    banner = pipeline_alert grouped (map (λ x. x.item) (e ∷ entries)) p.banner;
    cards = map (status_card date grouped now names) (e ∷ entries);
  }

  unfoldable pub refresh_status :
      ℕ → List (String × Meta) → Response StatusBody → StatusPanel → StatusPanel
  unfolding show_status
  refresh_status now names failed p = p
  refresh_status now names refused p = p
  refresh_status now names (answered b) p =
      let shown = show_status now names (all_entries b) p in if b.ok then shown else p
