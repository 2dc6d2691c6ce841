-- ===== src/EdgeServer/Tests.antt =====
-- The Edge Server page at a concrete page, sequence of presses and choice of windows.
use gateway_hub.EdgeServer.Settings.Kept.{bound, settings-kept, shown_then_read}
use gateway_hub.EdgeServer.Settings.{cert_status, set_toggle}
use gateway_hub.EdgeServer.Settings
use gateway_hub.Prelude.{
  Option, to_string, ℕ, ◌≡◌, refl, true, false, some, none, String, List, [], ◌∷◌, ◌===◌,
  if◌then◌else◌, arith,
}
use gateway_hub.EdgeServer.Items.{find_id}
use gateway_hub.EdgeServer.Endpoints.{Endpoint, HttpForm, MqttForm, Page}
use gateway_hub.EdgeServer.Buttons.{
  Event, add_http, save_http, toggle_http, delete_http, edit_http, run, http_id, DistinctIds,
  run-DistinctIds, stored, edit-save_http,
}

abbrev pump : Endpoint
pump = record {
  id = "p";
  enabled = false;
  name = "Pump";
  protocol = "http";
  method = "PATCH";
  path = "/pump";
  auth = "none";
  payload_type = "json";
  device_id_source = "payload";
  device_id_key = "id";
}

abbrev empty_http : HttpForm
empty_http = record {
  name = "";
  protocol = "";
  method = "";
  path = "";
  auth = "";
  payload_type = "";
  device_id_source = "";
  device_id_key = "";
}

abbrev empty_mqtt : MqttForm
empty_mqtt = record {
  name = "";
  protocol = "";
  topic_filter = "";
  qos = 0;
  payload_type = "";
  device_id_source = "";
  device_id_key = "";
}

abbrev page : Page
page = record {
  http_endpoints = pump ∷ [];
  mqtt_topics = [];
  editing_http = none;
  editing_mqtt = none;
  http_hidden = true;
  mqtt_hidden = true;
  http_form = empty_http;
  mqtt_form = empty_mqtt;
  saves = 0;
}

abbrev presses : List Event
presses = add_http ∷ save_http "q" ∷ toggle_http "p" ∷ delete_http "q" ∷ []

page-DistinctIds : DistinctIds page
page-DistinctIds = ((λ id. ground arith), (λ id. ground arith))

run-DistinctIds_example : DistinctIds (run page presses)
run-DistinctIds_example = run-DistinctIds page presses page-DistinctIds

edit-save_http_example :
    find_id http_id "p" (run page (edit_http "p" ∷ save_http "q" ∷ [])).http_endpoints
    ≡ (if "p" === "p" then some (stored pump) else find_id http_id "p" page.http_endpoints)
edit-save_http_example = edit-save_http page pump "q" "p" (refl, refl, refl, refl) refl

-- The texts of the numbers of a full configuration are read back.
abbrev bound_page : Settings.Page
bound_page = record {
  binds =
      ("eth0", false)
      ∷ ("eth1", false)
      ∷ ("wlan0", false)
      ∷ ("wwan0", false)
      ∷ ("tailscale0", false)
      ∷ [];
  ports = record { http = ""; https = ""; mqtt = ""; mqtts = "" };
  listener_toggles = record {
    http = set_toggle false;
    https = set_toggle false;
    mqtt = set_toggle false;
    mqtts = set_toggle false;
  };
  https_mtls = true;
  mqtts_mtls = true;
  anonymous = true;
  storage_enabled = false;
  retention = "";
  max_size = "";
  funnel_toggle = set_toggle true;
  funnel_services = ("http", false) ∷ ("mqtt", true) ∷ [];
  server_cert = cert_status "" false;
  server_key = cert_status "" false;
  client_ca = cert_status "" false;
}

abbrev ports_read : String → Option ℕ
ports_read s =
    if s === "8080"
    then some 8080
    else if s === "8443"
    then some 8443
    else if s === "1883"
    then some 1883
    else if s === "8883"
    then some 8883
    else if s === "14"
    then some 14
    else if s === "6000"
    then some 6000
    else none

abbrev full_listener : ℕ → Settings.Listener
full_listener port = record {
  enabled = some true;
  port = some port;
  mtls_required = some false;
  allow_anonymous = some false;
}

abbrev full_config : Settings.Config
full_config = record {
  listeners = record {
    bind_mode = some "interfaces";
    bind_interfaces = some ("wlan0" ∷ "eth0" ∷ []);
    http = full_listener 8080;
    https = full_listener 8443;
    mqtt = full_listener 1883;
    mqtts = full_listener 8883;
  };
  storage = record { enabled = some true; retention_days = some 14; max_size_mb = some 6000 };
  funnel = some (record { enabled = some true; services = ("http", true) ∷ ("mqtt", false) ∷ [] });
  tls = some Settings.default_tls;
}

settings-kept_example : shown_then_read ports_read full_config bound_page ≡ record full_config {
  listeners = record full_config.listeners {
    bind_mode = some "interfaces";
    bind_interfaces = some (bound full_config bound_page);
  };
}
unfolding to_string
settings-kept_example =
    settings-kept ports_read full_config bound_page
      (
        (refl, omega arith),
        (refl, omega arith),
        (refl, omega arith),
        (refl, omega arith),
        refl,
        refl,
        refl,
      )
      (refl, (refl, omega arith), (refl, omega arith)) (refl, (refl, (refl, tt))) refl
      (refl, (refl, (refl, (refl, (refl, (refl, tt))))))
