-- ===== src/EdgeServer/Settings.antt =====
-- The settings of the Edge Server page in web_console/static/js/app.js: listeners, storage, tunnel
-- and certificates, shown and read. `number` is `Number` of the text of an input, none for NaN; a
-- stored number that is missing or NaN is none.
pub mod Read
pub mod Kept
use gateway_hub.Network.{is_true, is_not_false}
use gateway_hub.Prelude.{
  max, ◌==◌, [], ◌∷◌, to_string, false, lookup_in, if◌then◌else◌, map, includes, template, none,
  Option, some, List, String, Bool, true, ℕ,
}

pub record Listener : Type 0 where
  pub enabled : Option Bool
  pub port : Option ℕ
  pub mtls_required : Option Bool
  pub allow_anonymous : Option Bool

pub record Listeners : Type 0 where
  pub bind_mode : Option String
  pub bind_interfaces : Option (List String)
  pub http : Listener
  pub https : Listener
  pub mqtt : Listener
  pub mqtts : Listener

pub record Storage : Type 0 where
  pub enabled : Option Bool
  pub retention_days : Option ℕ
  pub max_size_mb : Option ℕ

pub record Funnel : Type 0 where
  pub enabled : Option Bool
  -- Whether each service goes through it.
  pub services : List (String × Bool)

pub record Tls : Type 0 where
  pub managed : Bool
  pub server_cert : Bool
  pub server_key : Bool
  pub client_ca : Bool

-- `esConfig`, without the endpoints and topics.
pub record Config : Type 0 where
  pub listeners : Listeners
  pub storage : Storage
  pub funnel : Option Funnel
  pub tls : Option Tls

pub record Toggle : Type 0 where
  pub text : String
  pub is_on : Bool
  pub is_active : Bool

pub record PortInputs : Type 0 where
  pub http : String
  pub https : String
  pub mqtt : String
  pub mqtts : String

pub record Toggles : Type 0 where
  pub http : Toggle
  pub https : Toggle
  pub mqtt : Toggle
  pub mqtts : Toggle

-- A status of a certificate: its text and whether it is marked as installed.
pub record CertStatus : Type 0 where
  pub text : String
  pub is_installed : Bool

pub record Page : Type 0 where
  pub binds : List (String × Bool)
  pub ports : PortInputs
  pub listener_toggles : Toggles
  pub https_mtls : Bool
  pub mqtts_mtls : Bool
  pub anonymous : Bool
  pub storage_enabled : Bool
  pub retention : String
  pub max_size : String
  pub funnel_toggle : Toggle
  pub funnel_services : List (String × Bool)
  pub server_cert : CertStatus
  pub server_key : CertStatus
  pub client_ca : CertStatus

abbrev listener : ℕ → Option Bool → Option Bool → Listener
listener port mtls anonymous = record {
  enabled = some false;
  port = some port;
  mtls_required = mtls;
  allow_anonymous = anonymous;
}

abbrev pub default_interfaces : List String
default_interfaces = "eth0" ∷ "eth1" ∷ "wlan0" ∷ "wwan0" ∷ "tailscale0" ∷ []

abbrev pub default_funnel : Funnel
default_funnel = record {
  enabled = some false;
  services = ("http", true) ∷ ("https", false) ∷ ("mqtt", false) ∷ ("mqtts", false) ∷ [];
}

abbrev pub default_tls : Tls
default_tls = record { managed = true; server_cert = false; server_key = false; client_ca = false }

abbrev pub default_config : Config
default_config = record {
  listeners = record {
    bind_mode = some "interfaces";
    bind_interfaces = some default_interfaces;
    http = listener 8080 none none;
    https = listener 8443 (some false) none;
    mqtt = listener 1883 none (some false);
    mqtts = listener 8883 (some false) none;
  };
  storage = record { enabled = some true; retention_days = some 30; max_size_mb = some 5120 };
  funnel = some default_funnel;
  tls = some default_tls;
}

abbrev pub set_toggle : Bool → Toggle
set_toggle b = record { text = if b then "ON" else "OFF"; is_on = b; is_active = b }

-- `n || d`
abbrev pub number_or : Option ℕ → ℕ → ℕ
number_or none d = d
number_or (some n) d = if n == 0 then d else n

abbrev pub interfaces_or : Option (List String) → List String
interfaces_or none = default_interfaces
interfaces_or (some names) = names

-- `esConfig || esDefaultConfig()`
abbrev pub config_or : Option Config → Config
config_or none = default_config
config_or (some c) = c

abbrev pub check_bind : List String → String × Bool → String × Bool
check_bind names (value, checked) = (value, includes names value)

unfoldable pub apply_listeners : Option Config → Page → Page
apply_listeners c p =
    let l = (config_or c).listeners in
    record p {
      binds = map (check_bind (interfaces_or l.bind_interfaces)) p.binds;
      ports = record {
        http = to_string (number_or l.http.port 8080);
        https = to_string (number_or l.https.port 8443);
        mqtt = to_string (number_or l.mqtt.port 1883);
        mqtts = to_string (number_or l.mqtts.port 8883);
      };
      listener_toggles = record {
        http = set_toggle (is_true l.http.enabled);
        https = set_toggle (is_true l.https.enabled);
        mqtt = set_toggle (is_true l.mqtt.enabled);
        mqtts = set_toggle (is_true l.mqtts.enabled);
      };
      https_mtls = is_true l.https.mtls_required;
      mqtts_mtls = is_true l.mqtts.mtls_required;
      anonymous = is_true l.mqtt.allow_anonymous;
    }

-- `cfg.tls = cfg.tls || esDefaultConfig().tls`
abbrev pub completed_tls : Option Tls → Option Tls
completed_tls none = some default_tls
completed_tls (some t) = some t

abbrev pub checked_of : List (String × Bool) → List String
checked_of [] = []
checked_of ((value, checked) ∷ inputs) =
    let rest = checked_of inputs in if checked then value ∷ rest else rest

unfoldable pub apply_storage : Option Config → Page → Page
apply_storage c p =
    let s = (config_or c).storage in
    record p {
      storage_enabled = is_not_false s.enabled;
      retention = to_string (number_or s.retention_days 30);
      max_size = to_string (max 5120 (number_or s.max_size_mb 5120));
    }

abbrev pub funnel_or : Option Funnel → Funnel
funnel_or none = default_funnel
funnel_or (some f) = f

abbrev pub check_service : List (String × Bool) → String × Bool → String × Bool
check_service services (key, checked) = (key, is_true (lookup_in key services))

unfoldable pub apply_funnel_config : Option Config → Page → Page
apply_funnel_config c p =
    let f = funnel_or (config_or c).funnel in
    record p {
      funnel_toggle = set_toggle (is_true f.enabled);
      funnel_services = map (check_service f.services) p.funnel_services;
    }

abbrev pub cert_status : String → Bool → CertStatus
cert_status label installed = record {
  text = template (label ∷ (if installed then " installed" else " missing") ∷ []);
  is_installed = installed;
}

-- `esConfig?.tls?.installed || {}`
abbrev pub installed_of : Option Config → Tls
installed_of none = default_tls
installed_of (some c) = elim c.tls [ none ↦ default_tls | some t ↦ t ]

unfoldable pub apply_cert_status : Option Config → Page → Page
apply_cert_status c p =
    let t = installed_of c in
    record p {
      server_cert = cert_status "Server certificate" t.server_cert;
      server_key = cert_status "Server private key" t.server_key;
      client_ca = cert_status "Client CA" t.client_ca;
    }
