-- ===== src/Network/Examples.antt =====
-- A gateway on Wi-Fi, for the tests: Ethernet unplugged, the modem registered but not connected.
use gateway_hub.Prelude.{true, false, none, some}
use gateway_hub.Network.{Ethernet, Audit, NetworkState}

abbrev unplugged : Ethernet
unplugged = record { link_up = false; address = none; internet_ok = none }

abbrev quiet_audit : Audit
quiet_audit = record {
  active_duration_ms = some 61000;
  active_uplink_since_ms = some 1000;
  open_outage = none;
  last_outage = none;
  uplink_switch_count = some 1;
  counted_switches = none;
  last_switch = none;
}

abbrev pub wifi_gateway : NetworkState
wifi_gateway = record {
  eth0 = unplugged;
  eth1 = unplugged;
  wifi_client = record {
    present = some true;
    enabled = some true;
    connected_ssid = some "plant";
    address = some "10.0.0.7";
    configured_ssid = some "plant";
    reason = none;
    internet_ok = some true;
  };
  wifi_ap = record { enabled = false; clients = none };
  cellular = record {
    present = true;
    enabled = true;
    connected = false;
    registered = true;
    roaming = false;
    internet_ok = none;
    sim_status = some "ready";
    operator = none;
    signal_percent = some 40;
    signal_dbm = none;
  };
  audit = quiet_audit;
  active_uplink = some "wifi_client";
  wifi_status = some "up";
}
