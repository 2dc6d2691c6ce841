-- ===== src/Connectivity/Poll.antt =====
-- `startConnectionPoll` of web_console/static/js/app.js: the polls of the network state that follow
-- "Save and Apply". An answer is the state, or none where the request fails. The elements of the
-- strip are on the page.
pub mod Ends
use gateway_hub.Prelude.{
  ◌⊎◌, ℕ, zero, suc, ◌+◌, ◌*◌, ◌≤◌, ◌<◌, ◌≡◌, ◌≢◌, refl, Bool, true, false, not, ◌&&◌, Option, none,
  some, String, List, [], ◌∷◌, length, leb, ◌===◌, or_text, truthy, includes, template, to_string,
  if◌then◌else◌, arith,
}
use gateway_hub.Network.{NetworkState, active_of}

pub data StripClass : Type 0 where
  is_pending is_success is_error : StripClass

pub record Strip : Type 0 where
  pub cls : StripClass
  pub title : String
  pub detail : String
  pub badge : String
  pub polls : ℕ
  -- `setTimeout` has a tick to come.
  pub scheduled : Bool
  -- What `updateRuntimeState` was last called with.
  pub runtime : Option NetworkState

abbrev pub max_polls : ℕ
max_polls = 20

unfoldable pub start_poll : Bool → Option NetworkState → Strip
start_poll wifi runtime = record {
  cls = is_pending;
  title = if wifi then "Connecting to Wi-Fi…" else "Applying network configuration…";
  detail = "Waiting for network monitor…";
  badge = "";
  polls = 0;
  scheduled = true;
  runtime = runtime;
}

abbrev wifi_reached : Bool → NetworkState → Bool
wifi_reached wifi s = wifi && truthy s.wifi_client.connected_ssid

abbrev ethernet_reached : Bool → NetworkState → Bool
ethernet_reached wifi s = not wifi && includes ("eth0" ∷ "eth1" ∷ []) (active_of s)

-- What was waited for is there.
abbrev pub is_reached : Bool → NetworkState → Bool
is_reached wifi s = if wifi_reached wifi s then true else ethernet_reached wifi s

abbrev pub reached_detail : NetworkState → String
reached_detail s =
    let addr = or_text (if active_of s === "eth1" then s.eth1.address else s.eth0.address) "" in
    if addr === "" then active_of s else template (active_of s ∷ ": " ∷ addr ∷ [])

-- The part of `tick` that has a state.
unfoldable pub tick_state : Bool → Strip → NetworkState → Strip
tick_state wifi p s =
    if wifi_reached wifi s
    then record p {
      cls = is_success;
      title = template ("Connected — " ∷ or_text s.wifi_client.connected_ssid "" ∷ []);
      detail = or_text s.wifi_client.address "Address assigned";
      badge = "Active uplink";
      scheduled = false;
    }
    else if ethernet_reached wifi s
    then record p {
      cls = is_success;
      title = "Configuration applied";
      detail = reached_detail s;
      badge = "Active uplink";
      scheduled = false;
    }
    else if leb max_polls p.polls
    then record p {
      cls = is_error;
      title = if wifi then "Wi-Fi did not connect" else "No uplink established";
      detail =
          if wifi
          then "Check SSID, password, and signal strength."
          else "Check cable or network configuration.";
      scheduled = false;
    }
    else record p {
      detail = template ("Checking… (" ∷ to_string (p.polls * 2) ∷ "s elapsed)" ∷ []);
      scheduled = true;
    }

unfoldable pub tick : Bool → Strip → Option NetworkState → Strip
tick wifi p none = record p {
  polls = p.polls + 1;
  detail = "Could not reach gateway.";
  scheduled = true;
}
tick wifi p (some s) = tick_state wifi (record p { polls = p.polls + 1; runtime = some s }) s

-- The timer fires only while a tick is scheduled.
unfoldable pub run : Bool → Strip → List (Option NetworkState) → Strip
run wifi p [] = p
run wifi p (r ∷ replies) =
    let next = run wifi (tick wifi p r) replies in if p.scheduled then next else p
