-- ===== src/Forwarding/Tests.antt =====
-- The data-forwarding page at a concrete list of profiles, form and sequence of events.
use gateway_hub.Prelude.{
  ◌≡◌, ◌≢◌, inl, refl, true, false, some, none, String, List, [], ◌∷◌, ◌++◌, length, keep, includes,
  if◌then◌else◌, ◌===◌,
}
use gateway_hub.Forwarding.Cert.{Widget, empty, no_file}
use gateway_hub.Forwarding.Profile.{
  Mqtt, mqtt, https, every, listed, Sources, Profile, nothing_loaded,
}
use gateway_hub.Forwarding.Form.{Form, read_form, read_sources}
use gateway_hub.Forwarding.Store.{
  Store, refused, show_edit, save_begin, save_end, no_mqtt, no_https,
}
use gateway_hub.Forwarding.Store.Save.{
  find_id, saved, save-edited, save-retry, show-save_mqtt, show-save_sensors,
}
use gateway_hub.Forwarding.Toggles as T
use gateway_hub.Forwarding.Toggles.{switches_agree}

abbrev blank : Widget
blank = record {
  state = empty;
  textarea = "";
  status = no_file;
  is_loaded = false;
  clear_hidden = true;
}

abbrev blank_form : Form
blank_form = record {
  name = "";
  protocol = "mqtt";
  enabled = false;
  metrics = false;
  metrics_interval = some 5;
  anomalies = false;
  all_sensors = false;
  sensor_keys = [];
  all_edge = false;
  edge_keys = [];
  mqtt_host = "";
  mqtt_port = some 1883;
  port_edited = false;
  mqtt_tls = false;
  mqtt_ca = blank;
  mqtt_cert = blank;
  mqtt_key = blank;
  mqtt_client_id = "";
  mqtt_user = "";
  mqtt_password = "";
  mqtt_qos = some 1;
  https_host = "";
  https_port = some 443;
  https_tls = true;
  https_path = "/ingest";
  https_mode = "rest";
  https_query = "";
  https_auth = "none";
  https_auth_value = "";
  mtls = false;
  https_ca = blank;
  https_cert = blank;
  https_key = blank;
}

abbrev broker : Mqtt
broker = record no_mqtt { host = "broker"; port = 8883; tls = true; password = "secret"; qos = 0 }

abbrev broker_sources : Sources
broker_sources = record {
  device_metrics = true;
  metrics_interval_s = 10;
  device_anomalies = false;
  sensors = listed ("t1" ∷ "t2" ∷ []);
  edge_server = every;
}

abbrev broker_profile : Profile
broker_profile = record {
  id = "a";
  name = "Broker";
  enabled = true;
  protocol = "mqtt";
  sources = broker_sources;
  loaded = nothing_loaded;
  channel = mqtt broker;
}

abbrev https_profile : String → Profile
https_profile id = record broker_profile {
  id = id;
  name = "Cloud";
  protocol = "https";
  channel = https no_https;
}

abbrev page : Store
page = record {
  profiles = broker_profile ∷ https_profile "b" ∷ [];
  available = "t2" ∷ "t3" ∷ [];
  available_edge = [];
  default_query = "";
  edit_id = some "b";
  form = blank_form;
  form_hidden = false;
  title = "";
  message = "";
  message_is_error = false;
  mqtt_disabled = true;
  https_disabled = false;
}

abbrev new_page : Store
new_page = record page { edit_id = none }

save-edited_example :
    (find_id "a" (save_begin page).profiles
      ≡ (if "b" === "a" then some (saved page) else find_id "a" page.profiles))
    × ((q : Profile)
        → find_id "b" page.profiles ≡ some q
        → length (save_begin page).profiles ≡ length page.profiles)
save-edited_example = save-edited page "b" "a" refl refl

save-retry_example :
    (new_page.edit_id ≡ none
      → (save_begin (save_end none refused (save_begin new_page))).profiles
        ≡ new_page.profiles ++ saved new_page ∷ saved new_page ∷ [])
    × ((id : String)
        → new_page.edit_id ≡ some id
        → (id === "") ≡ false
        → (save_begin (save_end none refused (save_begin new_page))).profiles
          ≡ (save_begin new_page).profiles)
save-retry_example = save-retry new_page none refused (inl refl)

show-save_mqtt_example :
    (n : Mqtt) × ((read_form (some "a") (show_edit broker_profile page).form).channel ≡ mqtt n)
    × (n.password ≡ "secret")
    × (n.tls ≡ true)
    × (broker.port ≢ 0 → n.port ≡ 8883)
    × ((n.tls_ca ≡ none) × (n.tls_cert ≡ none) × (n.tls_key ≡ none))
    × (broker.qos ≢ 0 → n.qos ≡ 0)
    × (broker.qos ≡ 0 → n.qos ≡ 1)
show-save_mqtt_example = show-save_mqtt broker_profile broker page refl refl

show-save_sensors_example :
    (broker_profile.sources.sensors ≡ every
      → (read_sources (show_edit broker_profile page).form).sensors ≡ every)
    × ((keys : List String)
        → broker_profile.sources.sensors ≡ listed keys
        → (read_sources (show_edit broker_profile page).form).sensors
          ≡ listed (keep (λ k. includes keys k) page.available))
show-save_sensors_example = show-save_sensors broker_profile page

clicked : T.Steps blank_form (T.step (T.step blank_form T.mqtt_tls_clicked) T.mtls_clicked)
unfolding T.step
clicked = T.next T.mqtt_tls_clicked refl (T.next T.mtls_clicked refl T.done)
