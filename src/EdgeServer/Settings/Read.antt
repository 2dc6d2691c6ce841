-- ===== src/EdgeServer/Settings/Read.antt =====
-- What the Edge Server page in web_console/static/js/app.js reads back of its settings.
use gateway_hub.EdgeServer.Settings.{
  completed_tls, number_or, checked_of, funnel_or, some, Config, Page,
}
use gateway_hub.Prelude.{
  set_key, [], ◌∷◌, none, max, ◌===◌, some, if◌then◌else◌, Option, Bool, String, List, ℕ,
}

-- `Math.max(5120, n)`, which is NaN for NaN.
abbrev pub at_least : ℕ → Option ℕ → Option ℕ
at_least low none = none
at_least low (some n) = some (max low n)

module _ (number : String → Option ℕ) where
  -- `Number(value || port || 1)`
  abbrev pub read_port : String → Option ℕ → Option ℕ
  read_port value port = if value === "" then some (number_or port 1) else number value

  unfoldable pub read_listeners : Page → Config → Config
  read_listeners p c =
      let l = c.listeners in
      record c {
        listeners = record {
          bind_mode = some "interfaces";
          bind_interfaces = some (checked_of p.binds);
          http = record l.http { port = read_port p.ports.http l.http.port };
          https = record l.https {
            port = read_port p.ports.https l.https.port;
            mtls_required = some p.https_mtls;
          };
          mqtt = record l.mqtt {
            port = read_port p.ports.mqtt l.mqtt.port;
            allow_anonymous = some p.anonymous;
          };
          mqtts = record l.mqtts {
            port = read_port p.ports.mqtts l.mqtts.port;
            mtls_required = some p.mqtts_mtls;
          };
        };
        tls = completed_tls c.tls;
      }

  -- `Number(value || d)`
  abbrev pub number_text : String → ℕ → Option ℕ
  number_text value d = if value === "" then some d else number value

  unfoldable pub read_storage : Page → Config → Config
  read_storage p c = record c {
    storage = record {
      enabled = some p.storage_enabled;
      retention_days = number_text p.retention 30;
      max_size_mb = at_least 5120 (number_text p.max_size 5120);
    };
  }

abbrev pub read_services : List (String × Bool) → List (String × Bool) → List (String × Bool)
read_services [] services = services
read_services ((key, checked) ∷ inputs) services =
    read_services inputs (if key === "" then services else set_key key checked services)

unfoldable pub read_funnel_config : Page → Config → Config
read_funnel_config p c =
    let f = funnel_or c.funnel in
    record c {
      funnel = some (record {
        enabled = some p.funnel_toggle.is_on;
        services = read_services p.funnel_services f.services;
      });
    }

-- Without a loaded configuration what is read goes into a default one that is not kept.
abbrev pub read_loaded : (Page → Config → Config) → Page → Option Config → Option Config
read_loaded read p none = none
read_loaded read p (some c) = some (read p c)
