-- ===== src/Connectivity/Form.antt =====
-- `buildNetworkPayload` and `validateNetworkPayload` of web_console/static/js/app.js. The form is the
-- function `formData.get`; a field that is not in it is `none`. `upper` is `toUpperCase`.
use gateway_hub.Prelude.{
  ===-sym, ◌≡◌, ◌↔◌, inl, inr, refl, Bool, true, false, not, ◌&&◌, Option, none, some, String, List,
  [], ◌∷◌, ◌===◌, or_text, includes, if◌then◌else◌, eq_iff, Bool-cases, ℕ,
}
use gateway_hub.Prelude.Int.{ℤ}
use gateway_hub.Connectivity.Fields.{trim, parse_list, parse_int}

abbrev pub FormData : Type 0
FormData = String → Option String

-- `formData.get(key) === "on"`
abbrev pub is_on : FormData → String → Bool
is_on form key = or_text (form key) "" === "on"

-- `String(formData.get(key) || d)`
abbrev pub text_or : FormData → String → String → String
text_or form key d = or_text (form key) d

abbrev pub trimmed : FormData → String → String
trimmed form key = trim (text_or form key "")

pub record WifiClientForm : Type 0 where
  pub enabled : Bool
  pub interface : String
  pub auto_connect : Bool
  pub ssid : String
  pub hidden_ssid : Bool
  pub security : String
  pub passphrase : String
  pub country_code : String
  pub band : String
  pub dhcp : Bool
  pub static_address : String
  pub static_gateway : String
  pub static_dns : List String
  pub route_metric : Option ℤ
  pub uplink_allowed : Bool

pub record WifiApForm : Type 0 where
  pub enabled : Bool
  pub interface : String
  pub ssid : String
  pub security : String
  pub passphrase : String
  pub country_code : String
  pub band : String
  pub channel : String
  pub channel_width : String
  pub subnet_cidr : String
  pub dhcp_server_enabled : Bool
  pub dhcp_range_start : String
  pub dhcp_range_end : String
  pub nat_enabled : Bool
  pub client_isolation : Bool
  pub shared_uplink_mode : String

pub record Modem : Type 0 where
  pub id : String
  pub enabled : Bool
  pub backend : String
  pub interface_type : String
  pub control_device : String
  pub data_interface : String
  pub route_metric : ℕ
  pub ip_type : String

pub record CellularForm : Type 0 where
  pub enabled : Bool
  pub active_modem_id : String
  pub apn : String
  pub username : String
  pub password : String
  pub pin : String
  pub roaming_allowed : Bool
  pub modems : List Modem

pub record UplinkForm : Type 0 where
  pub uplink_priority : List String
  pub failback_enabled : Bool
  pub stable_seconds_before_switch : Option ℤ
  pub require_connectivity_check : Bool
  pub fail_count_threshold : Option ℤ
  pub recover_count_threshold : Option ℤ
  pub connectivity_targets : List String

pub record Payload : Type 0 where
  pub version : ℕ
  pub create_defaults_if_missing : Bool
  pub restore_defaults_if_invalid : Bool
  pub backup_invalid_file : Bool
  pub wifi_client : WifiClientForm
  pub wifi_ap : WifiApForm
  pub cellular : CellularForm
  pub uplink : UplinkForm

module _ (upper : String → String) (form : FormData) where
  unfoldable pub build_wifi_client : WifiClientForm
  build_wifi_client = record {
    enabled = is_on form "wifi_client_enabled";
    interface = text_or form "wifi_client_interface" "wlan0";
    auto_connect = is_on form "wifi_client_auto_connect";
    ssid = trimmed form "wifi_client_ssid";
    hidden_ssid = is_on form "wifi_client_hidden_ssid";
    security = text_or form "wifi_client_security" "wpa2-psk";
    passphrase = text_or form "wifi_client_passphrase" "";
    country_code = upper (trimmed form "wifi_client_country_code");
    band = text_or form "wifi_client_band" "auto";
    dhcp = is_on form "wifi_client_dhcp";
    static_address = trimmed form "wifi_client_static_address";
    static_gateway = trimmed form "wifi_client_static_gateway";
    static_dns = parse_list (form "wifi_client_static_dns");
    route_metric = parse_int (text_or form "wifi_client_route_metric" "200");
    uplink_allowed = true;
  }

  unfoldable pub build_wifi_ap : WifiApForm
  build_wifi_ap = record {
    enabled = is_on form "wifi_ap_enabled";
    interface = text_or form "wifi_ap_interface" "wlan0";
    ssid = trimmed form "wifi_ap_ssid";
    security = text_or form "wifi_ap_security" "wpa2-psk";
    passphrase = text_or form "wifi_ap_passphrase" "";
    country_code = upper (trimmed form "wifi_ap_country_code");
    band = text_or form "wifi_ap_band" "2.4ghz";
    channel = trim (text_or form "wifi_ap_channel" "auto");
    channel_width = "20";
    subnet_cidr = trimmed form "wifi_ap_subnet_cidr";
    dhcp_server_enabled = is_on form "wifi_ap_dhcp_server_enabled";
    dhcp_range_start = trimmed form "wifi_ap_dhcp_range_start";
    dhcp_range_end = trimmed form "wifi_ap_dhcp_range_end";
    nat_enabled = is_on form "wifi_ap_nat_enabled";
    client_isolation = is_on form "wifi_ap_client_isolation";
    shared_uplink_mode = text_or form "wifi_ap_shared_uplink_mode" "auto";
  }

  unfoldable pub build_network_payload : Payload
  unfolding build_wifi_client build_wifi_ap
  build_network_payload = record {
    version = 2;
    create_defaults_if_missing = true;
    restore_defaults_if_invalid = true;
    backup_invalid_file = true;
    wifi_client = build_wifi_client;
    wifi_ap = build_wifi_ap;
    cellular = record {
      enabled = is_on form "cellular_enabled";
      active_modem_id = "sim7600";
      apn = trimmed form "cellular_apn";
      username = trimmed form "cellular_username";
      password = text_or form "cellular_password" "";
      pin = trimmed form "cellular_pin";
      roaming_allowed = is_on form "cellular_roaming_allowed";
      modems =
          record {
            id = "sim7600";
            enabled = true;
            backend = "qmi";
            interface_type = "qmi";
            control_device = "/dev/cdc-wdm0";
            data_interface = "wwan0";
            route_metric = 500;
            ip_type = "4";
          }
          ∷ [];
    };
    uplink = record {
      uplink_priority =
          text_or form "uplink_priority_1" "eth0"
          ∷ text_or form "uplink_priority_2" "eth1"
          ∷ text_or form "uplink_priority_3" "wifi_client"
          ∷ text_or form "uplink_priority_4" "cellular"
          ∷ [];
      failback_enabled = is_on form "uplink_failback_enabled";
      stable_seconds_before_switch =
          parse_int (text_or form "uplink_stable_seconds_before_switch" "0");
      require_connectivity_check = is_on form "uplink_require_connectivity_check";
      fail_count_threshold = parse_int (text_or form "uplink_fail_count_threshold" "1");
      recover_count_threshold = parse_int (text_or form "uplink_recover_count_threshold" "1");
      connectivity_targets =
          parse_list (some (text_or form "uplink_connectivity_targets" "1.1.1.1, 8.8.8.8"));
    };
  }

abbrev pub one_radio : String
one_radio =
    "Current gateway image supports either Wi-Fi client or Wi-Fi AP on wlan0, not both at the same time."

abbrev pub wired_sharing : String
wired_sharing = "Current gateway image supports Wi-Fi AP sharing only through Ethernet or Auto."

-- The empty text lets the payload pass.
unfoldable pub validate_network_payload : Payload → String
validate_network_payload p =
    if p.wifi_client.enabled && p.wifi_ap.enabled
    then one_radio
    else if not (
        includes ("auto" ∷ "ethernet" ∷ "eth0" ∷ [])
          (or_text (some p.wifi_ap.shared_uplink_mode) "auto"))
    then wired_sharing
    else ""

abbrev shared_modes : List String
shared_modes = "auto" ∷ "ethernet" ∷ "eth0" ∷ []

mode_same :
    (mode : Option String)
    → includes shared_modes (or_text (some (or_text mode "auto")) "auto")
      ≡ includes ("" ∷ shared_modes) (or_text mode "")
mode_same none = refl
mode_same (some m) = elim (Bool-cases (m === "")) [
  | inl e ↦ rw ((eq_iff m "").0 e)
  | inr e ↦ rw (e, e, ===-sym "" m, e)
]

passes_iff :
    (both listed : Bool)
    → ((if both then one_radio else if not listed then wired_sharing else "") ≡ "")
      ↔ ((both ≡ false) × (listed ≡ true))
passes_iff true listed = ((λ e. cc), λ h. cc h.0)
passes_iff false true = ((λ e. (refl, refl)), λ h. refl)
passes_iff false false = ((λ e. cc), λ h. cc h.1)

-- A form passes the checks exactly when it does not switch on the Wi-Fi client and the access point
-- together and its sharing mode is left out, empty, "auto", "ethernet" or "eth0".
pub validate-build :
    (upper : String → String) (form : FormData)
    → (validate_network_payload (build_network_payload upper form) ≡ "") ↔ (
        ((is_on form "wifi_client_enabled" && is_on form "wifi_ap_enabled") ≡ false)
        × (includes
              ("" ∷ "auto" ∷ "ethernet" ∷ "eth0" ∷ [])
              (or_text (form "wifi_ap_shared_uplink_mode") "")
            ≡ true))
unfolding validate_network_payload build_network_payload
validate-build upper form = rw (← mode_same (form "wifi_ap_shared_uplink_mode")) (passes_iff _ _)
