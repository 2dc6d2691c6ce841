-- ===== src/Forwarding/Form.antt =====
-- The profile form of the data-forwarding page in web_console/static/js/app.js: its fields, and the
-- profile that `fwSave` reads off them. All fields are on the page.
use gateway_hub.Prelude.{ℕ, Bool, Option, some, String, List, ◌===◌, or_text, if◌then◌else◌}
use gateway_hub.Connectivity.Fields.{trim}
use gateway_hub.Forwarding.Cert.{Widget, get_value}
use gateway_hub.Forwarding.Profile.{
  Selection, every, listed, Sources, Mqtt, Https, mqtt, https, Profile, number_or, nothing_loaded,
}

-- The values of the inputs, the switches, and the six certificate fields.
pub record Form : Type 0 where
  pub name : String
  pub protocol : String
  pub enabled : Bool
  pub metrics : Bool
  pub metrics_interval : Option ℕ
  pub anomalies : Bool
  pub all_sensors : Bool
  pub sensor_keys : List String
  pub all_edge : Bool
  pub edge_keys : List String
  pub mqtt_host : String
  pub mqtt_port : Option ℕ
  pub port_edited : Bool
  pub mqtt_tls : Bool
  pub mqtt_ca : Widget
  pub mqtt_cert : Widget
  pub mqtt_key : Widget
  pub mqtt_client_id : String
  pub mqtt_user : String
  pub mqtt_password : String
  pub mqtt_qos : Option ℕ
  pub https_host : String
  pub https_port : Option ℕ
  pub https_tls : Bool
  pub https_path : String
  pub https_mode : String
  pub https_query : String
  pub https_auth : String
  pub https_auth_value : String
  pub mtls : Bool
  pub https_ca : Widget
  pub https_cert : Widget
  pub https_key : Widget

-- `s.trim() || d`
abbrev pub trim_or : String → String → String
trim_or s d = or_text (some (trim s)) d

abbrev pub selection : Bool → List String → Selection
selection everything keys = if everything then every else listed keys

unfoldable pub read_sources : Form → Sources
read_sources f = record {
  device_metrics = f.metrics;
  metrics_interval_s = number_or f.metrics_interval 5;
  device_anomalies = f.anomalies;
  sensors = selection f.all_sensors f.sensor_keys;
  edge_server = selection f.all_edge f.edge_keys;
}

unfoldable pub read_mqtt : Form → Mqtt
read_mqtt f = record {
  host = trim_or f.mqtt_host "";
  port = number_or f.mqtt_port 1883;
  tls = f.mqtt_tls;
  mtls = f.mqtt_tls;
  tls_ca = get_value f.mqtt_ca;
  tls_cert = get_value f.mqtt_cert;
  tls_key = get_value f.mqtt_key;
  client_id = trim_or f.mqtt_client_id "";
  username = trim_or f.mqtt_user "";
  password = f.mqtt_password;
  qos = number_or f.mqtt_qos 1;
}

-- The certificate of a connection: deleted when mutual TLS is off.
abbrev pub cert_of : Bool → Widget → Option String
cert_of with_certs w = if with_certs then get_value w else some ""

unfoldable pub read_https : Form → Https
read_https f = record {
  host = trim_or f.https_host "";
  port = number_or f.https_port 443;
  tls = f.https_tls;
  path = trim_or f.https_path "/ingest";
  mode = or_text (some f.https_mode) "rest";
  graphql_query = trim_or f.https_query "";
  auth_type = or_text (some f.https_auth) "none";
  auth_value = f.https_auth_value;
  mtls = f.mtls;
  tls_ca = cert_of f.mtls f.https_ca;
  tls_cert = cert_of f.mtls f.https_cert;
  tls_key = cert_of f.mtls f.https_key;
}

-- The profile that `fwSave` builds, `edit_id` being the profile that the form edits.
unfoldable pub read_form : Option String → Form → Profile
unfolding read_sources read_mqtt read_https
read_form edit_id f =
    let proto = or_text (some f.protocol) "mqtt" in
    record {
      id = or_text edit_id "";
      name = trim_or f.name "Unnamed Profile";
      enabled = f.enabled;
      protocol = proto;
      sources = read_sources f;
      loaded = nothing_loaded;
      channel = if proto === "mqtt" then mqtt (read_mqtt f) else https (read_https f);
    }
