-- ===== src/Connectivity/Runtime.antt =====
-- `updateRuntimeState` of web_console/static/js/app.js. `sentence` gives a text a space for each "_"
-- and a capital.
use gateway_hub.Connectivity.Cellular.{count_of}
use gateway_hub.Network.{is_true, NetworkState, WifiClient, Ethernet}
use gateway_hub.Prelude.{
  [], to_string, ◌∷◌, template, truthy, or_text, if◌then◌else◌, Option, String, ℕ,
}

-- What an apply run and the monitor report.
pub record Report : Type 0 where
  pub apply_status : Option String
  pub apply_timestamp : Option String
  pub monitor_status : Option String
  pub recovery_count : Option ℕ
  pub recovery_reason : Option String

pub record Runtime : Type 0 where
  pub eth0_status : String
  pub eth0_address : String
  pub eth1_status : String
  pub eth1_address : String
  pub wifi_status : String
  pub wifi_detail : String
  pub ap_status : String
  pub ap_detail : String
  pub apply_status : String
  pub apply_timestamp : String
  pub monitor_status : String
  pub monitor_detail : String

abbrev pub link_text : Ethernet → String
link_text e = if e.link_up then "Link up" else "Link down"

-- `ssid || address`
abbrev pub first_text : Option String → Option String → Option String
first_text a b = if truthy a then a else b

unfoldable pub wifi_detail_of : WifiClient → String
wifi_detail_of w =
    if truthy (first_text w.connected_ssid w.address)
    then template (
        or_text (first_text w.connected_ssid w.address) "No active SSID"
        ∷ " · "
        ∷ (if is_true w.internet_ok then "Internet OK" else "Internet pending")
        ∷ [])
    else "No active SSID"

abbrev pub recovery_text : Report → String
recovery_text r =
    if truthy r.recovery_reason
    then template (
        "Recovery "
        ∷ to_string (count_of r.recovery_count)
        ∷ " · "
        ∷ or_text r.recovery_reason ""
        ∷ [])
    else "No recovery action recorded"

module _ (sentence : String → String) where
  unfoldable pub update_runtime_state : NetworkState → Report → Runtime
  unfolding wifi_detail_of
  update_runtime_state s r = record {
    eth0_status = link_text s.eth0;
    eth0_address = or_text s.eth0.address "No address";
    eth1_status = link_text s.eth1;
    eth1_address = or_text s.eth1.address "No address";
    wifi_status = if truthy s.wifi_client.connected_ssid then "Connected" else "Disconnected";
    wifi_detail = wifi_detail_of s.wifi_client;
    ap_status = if s.wifi_ap.enabled then "Enabled" else "Disabled";
    ap_detail = template (to_string (count_of s.wifi_ap.clients) ∷ " client(s)" ∷ []);
    apply_status = sentence (or_text r.apply_status "unknown");
    apply_timestamp = or_text r.apply_timestamp "No apply run yet";
    monitor_status = sentence (or_text r.monitor_status "unknown");
    monitor_detail = recovery_text r;
  }
