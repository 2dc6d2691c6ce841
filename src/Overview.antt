-- ===== src/Overview.antt =====
-- `applyOverviewState` of web_console/static/js/app.js: what the overview shows of the network.
pub mod Banner
pub mod View
pub mod Agreement
pub mod IncidentBand
pub mod InsightsCard
mod Tests
use gateway_hub.Prelude.{
  suc, ℕ, Bool, true, false, not, ◌&&◌, ◌||◌, Option, none, some, String, List, [], ◌∷◌, leb, ◌===◌,
  or_text, truthy, lookup_text, includes, template, to_string, if◌then◌else◌,
}
use gateway_hub.Prelude.Int.{int_text, ℤ, pos, negsuc}
use gateway_hub.Network.{
  Ethernet, WifiClient, WifiAp, Cellular, NetworkState, active_of, is_not_false, Tone, active,
  standby, inactive, Item,
}

abbrev pub eth_connected : Ethernet → Bool
eth_connected e = e.link_up && truthy e.address

abbrev pub ethernet_connected : NetworkState → Bool
ethernet_connected s = eth_connected s.eth0 || eth_connected s.eth1

abbrev pub wifi_connected : NetworkState → Bool
wifi_connected s = truthy s.wifi_client.connected_ssid

abbrev pub wifi_present : NetworkState → Bool
wifi_present s = is_not_false s.wifi_client.present

-- `String(… || "")`
abbrev pub wifi_uplink_status : NetworkState → String
wifi_uplink_status s = or_text s.wifi_status ""

abbrev pub wifi_enabled : NetworkState → Bool
wifi_enabled s = is_not_false s.wifi_client.enabled && not (wifi_uplink_status s === "disabled")

abbrev pub any_online : NetworkState → Bool
any_online s = ethernet_connected s || wifi_connected s || s.wifi_ap.enabled || s.cellular.connected

unfoldable pub gateway_health : NetworkState → String
gateway_health s = if any_online s then "Online" else "Standby"

abbrev pub is_ethernet : String → Bool
is_ethernet uplink = includes ("eth0" ∷ "eth1" ∷ []) uplink

unfoldable pub primary_link : NetworkState → String
primary_link s =
    if is_ethernet (active_of s)
    then "Ethernet"
    else if active_of s === "wifi_client"
    then "Wi-Fi"
    else if active_of s === "cellular"
    then "Cellular"
    else "Offline"

-- The text of the wireless chip.
unfoldable pub wireless_state : NetworkState → String
wireless_state s =
    if not (wifi_present s)
    then "Unavailable"
    else if s.wifi_ap.enabled
    then "Access Point"
    else if not (wifi_enabled s)
    then "Disabled"
    else if wifi_connected s
    then "Connected"
    else if wifi_uplink_status s === "up"
    then "Standby"
    else "Not connected"

-- The classes that the drawing's lamp, links and ports carry.
pub record Drawing : Type 0 where
  pub led_offline : Bool
  pub eth_link_inactive : Bool
  pub wifi_link_inactive : Bool
  pub cell_link_inactive : Bool
  pub eth_port_active : Bool
  pub wifi_port_active : Bool
  pub cell_port_active : Bool

unfoldable pub drawing : NetworkState → Drawing
drawing s = record {
  led_offline = not (any_online s);
  eth_link_inactive = not (ethernet_connected s) && not (is_ethernet (active_of s));
  wifi_link_inactive =
      not (wifi_connected s) && not s.wifi_ap.enabled && not (active_of s === "wifi_client");
  cell_link_inactive = not s.cellular.connected && not (active_of s === "cellular");
  eth_port_active = ethernet_connected s || is_ethernet (active_of s);
  wifi_port_active = wifi_connected s || s.wifi_ap.enabled || active_of s === "wifi_client";
  cell_port_active = s.cellular.connected || active_of s === "cellular";
}

-- The box of an Ethernet port, `key` being its name.
unfoldable pub eth_box : String → Ethernet → NetworkState → Item
eth_box key e s = record {
  state = if active_of s === key then "Active" else if eth_connected e then "Ready" else "Down";
  detail = or_text e.address (if e.link_up then "Waiting for IP" else "No link");
  tone = if active_of s === key then active else if eth_connected e then standby else inactive;
}

unfoldable pub eth_detail : NetworkState → String
eth_detail s =
    let address = or_text s.eth0.address (or_text s.eth1.address "") in
    if address === ""
    then "Waiting for DHCP"
    else template ((if active_of s === "eth1" then "eth1" else "eth0") ∷ ": " ∷ address ∷ [])

unfoldable pub ethernet_item : NetworkState → Item
unfolding eth_detail
ethernet_item s =
    if ethernet_connected s
    then record { state = "Connected"; detail = eth_detail s; tone = active }
    else record { state = "Disconnected"; detail = "No cable link"; tone = inactive }

abbrev pub reason_labels : List (String × String)
reason_labels =
    ("scanning", "Scanning for network…")
    ∷ ("disconnected", "Disconnected")
    ∷ ("authenticating", "Authenticating…")
    ∷ ("associating", "Associating with AP…")
    ∷ ("waiting_for_ip", "Waiting for IP (DHCP)…")
    ∷ ("connected_no_internet", "Connected — no internet")
    ∷ ("supplicant_inactive", "Wi-Fi supplicant not running")
    ∷ ("interface_missing", "Interface not detected")
    ∷ ("interface_disabled", "Interface disabled")
    ∷ ("ssid_missing", "No SSID configured")
    ∷ ("disabled", "Wi-Fi disabled")
    ∷ ("supplicant_status_unavailable", "Status unavailable")
    ∷ []

unfoldable pub wifi_reason_label : String → String
wifi_reason_label r = or_text (lookup_text r reason_labels) r

abbrev pub ap_clients : WifiAp → String
ap_clients ap = to_string (elim ap.clients [ none ↦ 0 | some n ↦ n ])

unfoldable pub wifi_standby_detail : NetworkState → String
unfolding wifi_reason_label
wifi_standby_detail s =
    let ssid = or_text s.wifi_client.configured_ssid "" in
    let reason = or_text s.wifi_client.reason "" in
    let target = template ("Target: \"" ∷ ssid ∷ "\"" ∷ []) in
    if s.wifi_ap.enabled
    then template (ap_clients s.wifi_ap ∷ " client(s) on hotspot" ∷ [])
    else if not (wifi_present s)
    then "Wireless interface not detected"
    else if not (ssid === "") && not (reason === "") && not (reason === "disabled")
    then template (target ∷ " · " ∷ wifi_reason_label reason ∷ [])
    else if not (ssid === "")
    then target
    else "Radio available for setup"

pub record WifiStatus : Type 0 where
  pub label : String
  pub pill : String
  pub tone : Tone

unfoldable pub wifi_status : NetworkState → WifiStatus
wifi_status s =
    if not (wifi_present s)
    then record { label = "Unavailable"; pill = "Down"; tone = inactive }
    else if s.wifi_ap.enabled
    then record { label = "Access Point"; pill = "AP"; tone = standby }
    else if not (wifi_enabled s)
    then record { label = "Disabled"; pill = "Disabled"; tone = inactive }
    else if wifi_connected s
    then (if active_of s === "wifi_client"
        then record { label = "Connected"; pill = "Active"; tone = active }
        else record { label = "Connected"; pill = "Ready"; tone = standby })
    else if wifi_uplink_status s === "up"
    then record { label = "Standby"; pill = "Standby"; tone = standby }
    else record { label = "Not connected"; pill = "Down"; tone = inactive }

unfoldable pub wifi_item : NetworkState → Item
unfolding wifi_status wifi_standby_detail
wifi_item s = record {
  state = (wifi_status s).label;
  detail =
      if wifi_connected s
      then or_text s.wifi_client.connected_ssid "Wireless uplink active"
      else wifi_standby_detail s;
  tone = (wifi_status s).tone;
}

unfoldable pub wifi_box : NetworkState → Item
unfolding wifi_status wifi_standby_detail
wifi_box s = record {
  state = (wifi_status s).pill;
  detail =
      if wifi_connected s
      then or_text s.wifi_client.connected_ssid "Connected"
      else if s.wifi_ap.enabled
      then template (ap_clients s.wifi_ap ∷ " client(s)" ∷ [])
      else wifi_standby_detail s;
  tone = (wifi_status s).tone;
}

abbrev pub signal_quality : ℕ → String
signal_quality pct =
    if leb 80 pct
    then "Strong"
    else if leb 60 pct
    then "Good"
    else if leb 40 pct
    then "Fair"
    else if leb 20 pct
    then "Weak"
    else "Poor"

-- `String(n)` of an integer.
abbrev pub dbm_text : Option ℤ → String
dbm_text none = ""
dbm_text (some dbm) = template (" · " ∷ int_text dbm ∷ " dBm" ∷ [])

abbrev pub signal_text : Option ℕ → Option ℤ → String
signal_text none dbm = ""
signal_text (some pct) dbm =
    template
      (" · " ∷ signal_quality pct ∷ " signal (" ∷ to_string pct ∷ "%" ∷ dbm_text dbm ∷ ")" ∷ [])

unfoldable pub cellular_item : NetworkState → Item
cellular_item s =
    let c = s.cellular in
    let sim = or_text c.sim_status "" in
    if c.connected
    then record {
      state = "Connected";
      detail =
          template (
            or_text c.operator "Unknown operator" ∷ signal_text c.signal_percent c.signal_dbm ∷ []);
      tone = active;
    }
    else if c.enabled && c.present
    then (if sim === "locked"
        then record { state = "PIN Locked"; detail = "SIM PIN required"; tone = standby }
        else if sim === "missing"
        then record { state = "No SIM"; detail = "No SIM card detected"; tone = standby }
        else record {
          state = "Connecting";
          detail = "Modem present, establishing link";
          tone = standby;
        })
    else if c.enabled && not c.present
    then record { state = "No Modem"; detail = "SIM7600 not detected"; tone = inactive }
    else record { state = "Disabled"; detail = "Cellular fallback is off"; tone = inactive }

abbrev pub is_live : Tone → Bool
is_live active = true
is_live standby = true
is_live inactive = false

unfoldable pub cellular_box : NetworkState → Item
unfolding cellular_item
cellular_box s = record {
  state = if active_of s === "cellular" then "Active" else (cellular_item s).state;
  detail = (cellular_item s).detail;
  tone =
      if active_of s === "cellular"
      then active
      else if is_live (cellular_item s).tone
      then standby
      else inactive;
}
