-- ===== src/Forwarding/Profile.antt =====
-- A forwarding profile, as `fwSave` of web_console/static/js/app.js makes it and the API returns it.
use gateway_hub.Prelude.{false, ℕ, Bool, Option, none, some, String, List, ◌==◌, if◌then◌else◌}

-- "all", or the keys that are ticked.
pub data Selection : Type 0 where
  every : Selection
  listed : List String → Selection

pub record Sources : Type 0 where
  pub device_metrics : Bool
  pub metrics_interval_s : ℕ
  pub device_anomalies : Bool
  pub sensors : Selection
  pub edge_server : Selection

-- A certificate is none to keep the device's, empty to delete it, or its new text.
pub record Mqtt : Type 0 where
  pub host : String
  pub port : ℕ
  pub tls : Bool
  pub mtls : Bool
  pub tls_ca : Option String
  pub tls_cert : Option String
  pub tls_key : Option String
  pub client_id : String
  pub username : String
  pub password : String
  pub qos : ℕ

pub record Https : Type 0 where
  pub host : String
  pub port : ℕ
  pub tls : Bool
  pub path : String
  pub mode : String
  pub graphql_query : String
  pub auth_type : String
  pub auth_value : String
  pub mtls : Bool
  pub tls_ca : Option String
  pub tls_cert : Option String
  pub tls_key : Option String

pub data Channel : Type 0 where
  mqtt : Mqtt → Channel
  https : Https → Channel

-- The certificates that the device has, as the API tells of a stored profile.
pub record Loaded : Type 0 where
  pub ca : Bool
  pub cert : Bool
  pub key : Bool

abbrev pub nothing_loaded : Loaded
nothing_loaded = record { ca = false; cert = false; key = false }

pub record Profile : Type 0 where
  pub id : String
  pub name : String
  pub enabled : Bool
  pub protocol : String
  pub sources : Sources
  pub loaded : Loaded
  pub channel : Channel

-- `Number(x) || d`: a number that does not parse, or is 0, is the default.
abbrev pub number_or : Option ℕ → ℕ → ℕ
number_or none d = d
number_or (some n) d = if n == 0 then d else n
