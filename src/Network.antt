-- ===== src/Network.antt =====
-- The network state that /api/network/state sends, in the fields that the pages of
-- web_console/static/js/app.js read. A field that may be missing is an `Option`; a field that is
-- only tested for truth is a `Bool`; an object that is missing is the object without fields.
pub mod Examples
use gateway_hub.Prelude.{ℕ, Bool, Option, none, some, String, or_text, false, true}
use gateway_hub.Prelude.Int.{ℤ}

pub record Ethernet : Type 0 where
  pub link_up : Bool
  pub address : Option String
  pub internet_ok : Option Bool

pub record WifiClient : Type 0 where
  pub present : Option Bool
  pub enabled : Option Bool
  pub connected_ssid : Option String
  pub address : Option String
  pub configured_ssid : Option String
  -- `diagnostics.reason`
  pub reason : Option String
  pub internet_ok : Option Bool

pub record WifiAp : Type 0 where
  pub enabled : Bool
  pub clients : Option ℕ

pub record Cellular : Type 0 where
  pub present : Bool
  pub enabled : Bool
  pub connected : Bool
  pub registered : Bool
  pub roaming : Bool
  pub internet_ok : Option Bool
  pub sim_status : Option String
  pub operator : Option String
  pub signal_percent : Option ℕ
  pub signal_dbm : Option ℤ

pub record Outage : Type 0 where
  pub duration_ms : Option ℕ
  pub started_at_ms : Option ℕ
  pub ended_at_ms : Option ℕ
  pub reason : Option String

pub record Switch : Type 0 where
  pub timestamp_ms : Option ℕ
  pub previous_uplink : Option String
  pub active_uplink : Option String

-- `_audit`
pub record Audit : Type 0 where
  pub active_duration_ms : Option ℕ
  pub active_uplink_since_ms : Option ℕ
  pub open_outage : Option Outage
  pub last_outage : Option Outage
  pub uplink_switch_count : Option ℕ
  -- `counts.uplink_switches`
  pub counted_switches : Option ℕ
  pub last_switch : Option Switch

pub record NetworkState : Type 0 where
  pub eth0 : Ethernet
  pub eth1 : Ethernet
  pub wifi_client : WifiClient
  pub wifi_ap : WifiAp
  pub cellular : Cellular
  pub audit : Audit
  pub active_uplink : Option String
  -- `uplink_stats.interfaces.wifi_client.status`
  pub wifi_status : Option String

-- `String(state?.active_uplink || "none")`
abbrev pub active_of : NetworkState → String
active_of s = or_text s.active_uplink "none"

-- `flag !== false`
abbrev pub is_not_false : Option Bool → Bool
is_not_false none = true
is_not_false (some b) = b

abbrev pub is_true : Option Bool → Bool
is_true none = false
is_true (some b) = b

-- How a badge or a box is painted.
pub data Tone : Type 0 where
  active standby inactive : Tone

-- What a row of the overview, or a box of the gateway drawing, shows.
pub record Item : Type 0 where
  pub state : String
  pub detail : String
  pub tone : Tone
