-- ===== src/Forwarding/Store.antt =====
-- The profiles of the data-forwarding page in web_console/static/js/app.js: `fwLoad`,
-- `fwUpdateProtocolOptions`, `fwShowForm`, `fwHideForm`, `fwSave` and the delete button.
pub mod Save
pub mod Limits
use gateway_hub.Prelude.{
  ◌++◌, ℕ, ◌≤◌, Bool, true, false, not, ◌&&◌, ◌||◌, Option, none, some, String, List, [], ◌∷◌,
  length, keep, any, ltb, leb, ◌===◌, or_text, includes, template, if◌then◌else◌,
}
use gateway_hub.Forwarding.Cert.{Widget, step, set_loaded}
use gateway_hub.Forwarding.Profile.{
  Selection, every, listed, Sources, Mqtt, Https, Channel, mqtt, https, Loaded, nothing_loaded,
  Profile, number_or,
}
use gateway_hub.Forwarding.Form.{Form, read_form}

pub record Store : Type 0 where
  pub profiles : List Profile
  pub available : List String
  pub available_edge : List String
  pub default_query : String
  pub edit_id : Option String
  pub form : Form
  pub form_hidden : Bool
  pub title : String
  pub message : String
  pub message_is_error : Bool
  pub mqtt_disabled : Bool
  pub https_disabled : Bool

-- `p.id !== editing`, where no profile's id is null.
abbrev pub differs : Option String → Profile → Bool
differs none p = true
differs (some id) p = not (p.id === id)

abbrev pub mqtt_taken : List Profile → Option String → Bool
mqtt_taken ps editing = any (λ p. p.protocol === "mqtt" && differs editing p) ps

abbrev pub https_count : List Profile → Option String → ℕ
https_count ps editing = length (keep (λ p. p.protocol === "https" && differs editing p) ps)

abbrev pub max_https_profiles : ℕ
max_https_profiles = 5

unfoldable pub update_protocol_options : Option String → Store → Store
update_protocol_options editing s = record s {
  mqtt_disabled = mqtt_taken s.profiles editing;
  https_disabled = leb max_https_profiles (https_count s.profiles editing);
}

-- The checklist: the available keys that are chosen are ticked.
abbrev pub ticked : List String → Selection → List String
ticked available every = []
ticked available (listed keys) = keep (λ k. includes keys k) available

abbrev pub is_every : Selection → Bool
is_every every = true
is_every (listed keys) = false

abbrev pub show_sources : Sources → Store → Form → Form
show_sources src s f = record f {
  metrics = src.device_metrics;
  metrics_interval = some (number_or (some src.metrics_interval_s) 5);
  anomalies = src.device_anomalies;
  all_sensors = is_every src.sensors;
  sensor_keys = ticked s.available src.sensors;
  all_edge = is_every src.edge_server;
  edge_keys = ticked s.available_edge src.edge_server;
}

abbrev pub show_mqtt : Mqtt → Loaded → Form → Form
show_mqtt m loaded f = record f {
  mqtt_host = m.host;
  mqtt_port = some (number_or (some m.port) 1883);
  port_edited = false;
  mqtt_client_id = m.client_id;
  mqtt_user = m.username;
  mqtt_password = m.password;
  mqtt_qos = some m.qos;
  mqtt_tls = m.tls;
  mqtt_ca = step f.mqtt_ca (set_loaded loaded.ca);
  mqtt_cert = step f.mqtt_cert (set_loaded loaded.cert);
  mqtt_key = step f.mqtt_key (set_loaded loaded.key);
}

abbrev pub show_https : Https → Loaded → String → Form → Form
show_https h loaded query f = record f {
  https_tls = h.tls;
  https_host = h.host;
  https_port = some (number_or (some h.port) 443);
  https_path = or_text (some h.path) "/ingest";
  https_mode = or_text (some h.mode) "rest";
  https_query = or_text (some h.graphql_query) query;
  https_auth = or_text (some h.auth_type) "none";
  https_auth_value = h.auth_value;
  mtls = loaded.ca || loaded.cert || loaded.key;
  https_ca = step f.https_ca (set_loaded loaded.ca);
  https_cert = step f.https_cert (set_loaded loaded.cert);
  https_key = step f.https_key (set_loaded loaded.key);
}

-- What the form shows of a profile that has no such fields: `{}` with the defaults of each field.
abbrev pub no_mqtt : Mqtt
no_mqtt = record {
  host = "";
  port = 1883;
  tls = false;
  mtls = false;
  tls_ca = none;
  tls_cert = none;
  tls_key = none;
  client_id = "";
  username = "";
  password = "";
  qos = 1;
}

abbrev pub no_https : Https
no_https = record {
  host = "";
  port = 443;
  tls = true;
  path = "";
  mode = "";
  graphql_query = "";
  auth_type = "";
  auth_value = "";
  mtls = false;
  tls_ca = none;
  tls_cert = none;
  tls_key = none;
}

abbrev pub no_sources : Sources
no_sources = record {
  device_metrics = false;
  metrics_interval_s = 5;
  device_anomalies = false;
  sensors = listed [];
  edge_server = listed [];
}

abbrev pub mqtt_of : Channel → Mqtt
mqtt_of (mqtt m) = m
mqtt_of (https h) = no_mqtt

abbrev pub https_of : Channel → Https
https_of (mqtt m) = no_https
https_of (https h) = h

abbrev pub show_channel : String → Channel → Loaded → String → Form → Form
show_channel proto c loaded query f =
    if proto === "mqtt"
    then show_mqtt (mqtt_of c) loaded f
    else show_https (https_of c) loaded query f

-- `fwEditId = profile?.id || null`
abbrev pub id_or_null : String → Option String
id_or_null id = if id === "" then none else some id

unfoldable pub show_new : Store → Store
unfolding update_protocol_options
show_new s =
    let proto = if mqtt_taken s.profiles none then "https" else "mqtt" in
    let f = record (show_sources no_sources s s.form) {
      protocol = proto;
      enabled = false;
      name = "";
    } in
    update_protocol_options none (record s {
      edit_id = none;
      title = "New Forwarding Profile";
      form = show_channel proto (mqtt no_mqtt) nothing_loaded s.default_query f;
      form_hidden = false;
    })

-- The fields that are filled before the protocol is looked at; a profile without a protocol gets
-- that of a new one.
unfoldable pub opened : Profile → Store → Form
opened p s = record (show_sources p.sources s s.form) {
  protocol =
      or_text (some p.protocol)
        (if mqtt_taken s.profiles (id_or_null p.id) then "https" else "mqtt");
  enabled = p.enabled;
  name = p.name;
}

unfoldable pub show_edit : Profile → Store → Store
unfolding update_protocol_options opened
show_edit p s =
    let f = opened p s in
    update_protocol_options (id_or_null p.id) (record s {
      edit_id = id_or_null p.id;
      title = template ("Edit: " ∷ p.name ∷ []);
      form = show_channel f.protocol p.channel p.loaded s.default_query f;
      form_hidden = false;
    })

-- `fwShowForm(profile)`
unfoldable pub fw_show_form : Option Profile → Store → Store
unfolding show_new show_edit
fw_show_form none s = show_new s
fw_show_form (some p) s = show_edit p s

unfoldable pub fw_hide_form : Store → Store
fw_hide_form s = record s { form_hidden = true; edit_id = none }

-- `fwProfiles[findIndex(…)] = profile`, or a push where the id is not found.
unfoldable pub upsert : String → Profile → List Profile → List Profile
upsert id p [] = p ∷ []
upsert id p (q ∷ qs) = if q.id === id then p ∷ qs else q ∷ upsert id p qs

unfoldable pub put_profile : Option String → Profile → List Profile → List Profile
unfolding upsert
put_profile none p ps = ps ++ p ∷ []
put_profile (some id) p ps = upsert id p ps

-- The answer to a request, and the body of `GET /api/forwarding/config`.
pub data Reply {ℓ} (A : Type ℓ) : Type ℓ where
  thrown : Reply A
  refused : Reply A
  answered : A → Reply A

pub record Config : Type 0 where
  pub profiles : List Profile
  pub available : List String
  pub available_edge : List String
  pub default_query : Option String

unfoldable pub fw_load : Reply Config → Store → Store
unfolding update_protocol_options
fw_load refused s = s
fw_load thrown s = update_protocol_options none s
fw_load (answered c) s = update_protocol_options none (record s {
  profiles = c.profiles;
  available = c.available;
  available_edge = c.available_edge;
  default_query = or_text c.default_query s.default_query;
})

-- `fwSave` up to its request: the list that the request carries is the new `profiles`.
unfoldable pub save_begin : Store → Store
unfolding put_profile
save_begin s = record s {
  message = "";
  message_is_error = false;
  profiles = put_profile s.edit_id (read_form s.edit_id s.form) s.profiles;
}

-- The body of the save's answer: whether it is ok, and its message.
pub record Saved : Type 0 where
  pub ok : Bool
  pub message : Option String

-- `fwSave` from its answer on; an answer that is not ok has a body too.
unfoldable pub save_end : Option Saved → Reply Config → Store → Store
unfolding fw_hide_form fw_load
save_end none config s = record s { message = "Network error."; message_is_error = true }
save_end (some r) config s =
    if r.ok
    then fw_load config (fw_hide_form (record s { message = "Saved." }))
    else record s { message = or_text r.message "Save failed."; message_is_error = true }

-- The delete button, once it is confirmed; a request that throws ends it before the list is drawn.
unfoldable pub delete_begin : String → Store → Store
delete_begin id s = record s { profiles = keep (λ p. not (p.id === id)) s.profiles }

unfoldable pub delete_end : Bool → Store → Store
unfolding update_protocol_options
delete_end sent s = if sent then update_protocol_options none s else s
