-- ===== src/EdgeServer/Endpoints.antt =====
-- The HTTP endpoints and MQTT topics of the Edge Server page in web_console/static/js/app.js: their
-- two forms and the handlers of their buttons. `esId()` draws the id that an event carries.
use gateway_hub.Prelude.{
  includes, leb, [], ◌∷◌, ℕ, Bool, true, false, not, Option, none, some, String, List, or_text,
  ◌===◌, if◌then◌else◌,
}

pub record Endpoint : Type 0 where
  pub id : String
  pub enabled : Bool
  pub name : String
  pub protocol : String
  pub method : String
  pub path : String
  pub auth : String
  pub payload_type : String
  pub device_id_source : String
  pub device_id_key : String

pub record Topic : Type 0 where
  pub id : String
  pub enabled : Bool
  pub name : String
  pub protocol : String
  pub topic_filter : String
  pub qos : ℕ
  pub payload_type : String
  pub device_id_source : String
  pub device_id_key : String

-- The inputs of a form are those of an item, without its id and its switch.
pub record HttpForm : Type 0 where
  pub name : String
  pub protocol : String
  pub method : String
  pub path : String
  pub auth : String
  pub payload_type : String
  pub device_id_source : String
  pub device_id_key : String

pub record MqttForm : Type 0 where
  pub name : String
  pub protocol : String
  pub topic_filter : String
  pub qos : ℕ
  pub payload_type : String
  pub device_id_source : String
  pub device_id_key : String

pub record Page : Type 0 where
  pub http_endpoints : List Endpoint
  pub mqtt_topics : List Topic
  pub editing_http : Option String
  pub editing_mqtt : Option String
  pub http_hidden : Bool
  pub mqtt_hidden : Bool
  pub http_form : HttpForm
  pub mqtt_form : MqttForm
  -- The calls of `esSaveConfig`.
  pub saves : ℕ

-- `s || d`
abbrev pub text : String → String → String
text s d = or_text (some s) d

abbrev pub no_endpoint : Endpoint
no_endpoint = record {
  id = "";
  enabled = false;
  name = "";
  protocol = "";
  method = "";
  path = "";
  auth = "";
  payload_type = "";
  device_id_source = "";
  device_id_key = "";
}

abbrev pub no_topic : Topic
no_topic = record {
  id = "";
  enabled = false;
  name = "";
  protocol = "";
  topic_filter = "";
  qos = 0;
  payload_type = "";
  device_id_source = "";
  device_id_key = "";
}

-- A missing item reads as the item without fields.
abbrev pub endpoint_of : Option Endpoint → Endpoint
endpoint_of none = no_endpoint
endpoint_of (some e) = e

abbrev pub topic_of : Option Topic → Topic
topic_of none = no_topic
topic_of (some t) = t

abbrev pub id_or_null : String → Option String
id_or_null id = if id === "" then none else some id

-- The options of the selects of web_console/templates/edge_server.html.
abbrev pub http_protocols : List String
http_protocols = "http" ∷ "https" ∷ []

abbrev pub http_methods : List String
http_methods = "POST" ∷ "PUT" ∷ []

abbrev pub http_auths : List String
http_auths = "none" ∷ "token" ∷ "mtls" ∷ []

abbrev pub http_payloads : List String
http_payloads = "json" ∷ "raw" ∷ "form" ∷ []

abbrev pub http_sources : List String
http_sources = "payload" ∷ "header" ∷ "path" ∷ "fixed" ∷ []

abbrev pub mqtt_protocols : List String
mqtt_protocols = "mqtt" ∷ "mqtts" ∷ []

abbrev pub mqtt_payloads : List String
mqtt_payloads = "json" ∷ "raw" ∷ []

abbrev pub mqtt_sources : List String
mqtt_sources = "topic_segment" ∷ "payload" ∷ "client_id" ∷ "fixed" ∷ []

-- The value of a select to which `value` is assigned: it is empty if there is no such option.
abbrev pub assigned : List String → String → String
assigned options value = if includes options value then value else ""

unfoldable pub show_http_form : Option Endpoint → Page → Page
show_http_form item p =
    let e = endpoint_of item in
    record p {
      editing_http = id_or_null e.id;
      http_hidden = false;
      http_form = record {
        name = e.name;
        protocol = assigned http_protocols (text e.protocol "http");
        method = assigned http_methods (text e.method "POST");
        path = text e.path "/ingest";
        auth = assigned http_auths (text e.auth "token");
        payload_type = assigned http_payloads (text e.payload_type "json");
        device_id_source = assigned http_sources (text e.device_id_source "payload");
        device_id_key = text e.device_id_key "device_id";
      };
    }

unfoldable pub show_mqtt_form : Option Topic → Page → Page
show_mqtt_form item p =
    let t = topic_of item in
    record p {
      editing_mqtt = id_or_null t.id;
      mqtt_hidden = false;
      mqtt_form = record {
        name = t.name;
        protocol = assigned mqtt_protocols (text t.protocol "mqtt");
        topic_filter = text t.topic_filter "devices/+/data";
        -- An empty select is read as 0.
        qos = if leb t.qos 2 then t.qos else 0;
        payload_type = assigned mqtt_payloads (text t.payload_type "json");
        device_id_source = assigned mqtt_sources (text t.device_id_source "topic_segment");
        device_id_key = text t.device_id_key "1";
      };
    }

unfoldable pub hide_http_form : Page → Page
hide_http_form p = record p { editing_http = none; http_hidden = true }

unfoldable pub hide_mqtt_form : Page → Page
hide_mqtt_form p = record p { editing_mqtt = none; mqtt_hidden = true }

unfoldable pub read_http_form : String → Page → Endpoint
read_http_form fresh p =
    let f = p.http_form in
    record {
      id = or_text p.editing_http fresh;
      enabled = true;
      name = text f.name "HTTP Endpoint";
      protocol = text f.protocol "http";
      method = text f.method "POST";
      path = text f.path "/ingest";
      auth = text f.auth "token";
      payload_type = text f.payload_type "json";
      device_id_source = text f.device_id_source "payload";
      device_id_key = text f.device_id_key "device_id";
    }

unfoldable pub read_mqtt_form : String → Page → Topic
read_mqtt_form fresh p =
    let f = p.mqtt_form in
    record {
      id = or_text p.editing_mqtt fresh;
      enabled = true;
      name = text f.name "MQTT Topic";
      protocol = text f.protocol "mqtt";
      topic_filter = text f.topic_filter "devices/+/data";
      qos = f.qos;
      payload_type = text f.payload_type "json";
      device_id_source = text f.device_id_source "topic_segment";
      device_id_key = text f.device_id_key "1";
    }

abbrev pub flip_endpoint : Endpoint → Endpoint
flip_endpoint e = record e { enabled = not e.enabled }

abbrev pub flip_topic : Topic → Topic
flip_topic t = record t { enabled = not t.enabled }
