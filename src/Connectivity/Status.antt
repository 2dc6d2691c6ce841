-- ===== src/Connectivity/Status.antt =====
-- `_stUplink`, `_stIfaceName` and `_ifaceRealStatus` of web_console/static/js/app.js.
use gateway_hub.Prelude.{
  ===-other, ===-sym, ◌≡◌, ◌↔◌, true, false, not, ◌&&◌, ◌||◌, some, String, ◌===◌, or_text, truthy,
  if◌then◌else◌, arith, eq_iff,
}
use gateway_hub.Network.{NetworkState, active_of, Tone, active, standby, inactive, is_not_false}
use gateway_hub.Overview.{wifi_status, wifi_uplink_status, wifi_connected, wifi_present}

unfoldable pub st_iface_name : String → String
st_iface_name key =
    if key === "eth0"
    then "Ethernet 0"
    else if key === "eth1"
    then "Ethernet 1"
    else if key === "wifi_client"
    then "Wi-Fi"
    else if key === "cellular"
    then "Cellular"
    else if key === "none"
    then "Offline"
    else or_text (some key) "—"

unfoldable pub st_uplink : String → String
st_uplink key =
    if key === "eth0"
    then "Ethernet (eth0)"
    else if key === "eth1"
    then "Ethernet (eth1)"
    else if key === "wifi_client"
    then "Wi-Fi (wlan0)"
    else if key === "cellular"
    then "Cellular"
    else if key === "none"
    then "Offline"
    else or_text (some key) "—"

pub data Class : Type 0 where
  is_active is_up is_disabled is_standby is_down is_unknown : Class

pub record Status : Type 0 where
  pub label : String
  pub cls : Class
  pub tone : Tone

unfoldable pub iface_real_status : String → String → String → NetworkState → Status
iface_real_status key status uplink s =
    if key === uplink && status === "up"
    then record { label = "Active"; cls = is_active; tone = active }
    else if status === "up"
    then record { label = "Standby"; cls = is_up; tone = standby }
    else if status === "disabled"
    then record { label = "Disabled"; cls = is_disabled; tone = inactive }
    else if key === "eth0" || key === "eth1"
    then (if (if key === "eth0" then s.eth0.link_up else s.eth1.link_up)
        then record { label = "Up"; cls = is_standby; tone = standby }
        else record { label = "No link"; cls = is_down; tone = inactive })
    else if key === "wifi_client"
    then (if truthy s.wifi_client.connected_ssid
        then record { label = "Standby"; cls = is_standby; tone = standby }
        else record { label = "Not connected"; cls = is_down; tone = inactive })
    else if key === "cellular"
    then (if not s.cellular.enabled
        then record { label = "Off"; cls = is_disabled; tone = inactive }
        else if s.cellular.connected
        then record { label = "Standby"; cls = is_standby; tone = standby }
        else record { label = "Offline"; cls = is_down; tone = inactive })
    else record { label = "Unknown"; cls = is_unknown; tone = inactive }

module _ (key status uplink : String) (s : NetworkState) where
  iface_active_tests :
      (iface_real_status key status uplink s).tone ≡ active
      → ((key === uplink) ≡ true) × ((status === "up") ≡ true)
  unfolding iface_real_status
  iface_active_tests h = ground arith

  iface_active_shown :
      (key === uplink) ≡ true
      → (status === "up") ≡ true
      → (iface_real_status key status uplink s).tone ≡ active
  unfolding iface_real_status
  iface_active_shown h k = rw (h, k)

-- An interface is painted active exactly when it is the active uplink and its monitor says "up".
pub iface_active_iff :
    (key status uplink : String) (s : NetworkState)
    → ((iface_real_status key status uplink s).tone ≡ active) ↔ ((key ≡ uplink) × (status ≡ "up"))
iface_active_iff key status uplink s = (
  (λ h.
      let b = iface_active_tests key status uplink s h in
      ((eq_iff key uplink).0 b.0, (eq_iff status "up").0 b.1)),
  (λ h.
      iface_active_shown key status uplink s ((eq_iff key uplink).1 h.0)
        ((eq_iff status "up").1 h.1)),
)

-- For a radio that is present, not an access point and not disabled by configuration, and whose
-- connection agrees with its monitor (an SSID is connected exactly when the status is "up", or the
-- status is "disabled"), the overview and the connectivity page paint Wi-Fi in the same tone.
pub wifi_pages_agree :
    (s : NetworkState)
    → wifi_present s ≡ true
    → s.wifi_ap.enabled ≡ false
    → is_not_false s.wifi_client.enabled ≡ true
    → ((wifi_uplink_status s === "disabled") ≡ false
        → wifi_connected s ≡ (wifi_uplink_status s === "up"))
    → (wifi_status s).tone
      ≡ (iface_real_status "wifi_client" (wifi_uplink_status s) (active_of s) s).tone
unfolding wifi_status iface_real_status
wifi_pages_agree s present ap enabled agree =
    ground
      (arith, ===-sym (active_of s) "wifi_client", ===-other (wifi_uplink_status s) "disabled" "up")
