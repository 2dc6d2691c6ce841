-- ===== src/Overview/View.antt =====
-- The whole of `applyOverviewState`: every element that it writes, as one record.
use gateway_hub.Prelude.{ℕ, String}
use gateway_hub.Network.{NetworkState, Item, active_of}
use gateway_hub.Overview.{
  gateway_health, primary_link, wireless_state, Drawing, drawing, eth_box, ethernet_item, wifi_item,
  wifi_box, cellular_item, cellular_box,
}
use gateway_hub.Overview.Banner.{
  uplink_name, BadgeClass, badge_class, since_text, OutageAlert, outage_alert, failover_text,
}

pub record OverviewView : Type 0 where
  pub chip_gateway : String
  pub chip_primary : String
  pub chip_wireless : String
  pub chip_cellular : String
  pub shape : Drawing
  pub box_eth0 : Item
  pub box_eth1 : Item
  pub box_wifi : Item
  pub box_cellular : Item
  pub row_ethernet : Item
  pub row_wifi : Item
  pub row_cellular : Item
  pub badge_text : String
  pub badge : BadgeClass
  pub since : String
  pub alert : OutageAlert
  pub failover : String

unfoldable pub apply_overview_state : (ℕ → String) → NetworkState → OverviewView
apply_overview_state local_time s = record {
  chip_gateway = gateway_health s;
  chip_primary = primary_link s;
  chip_wireless = wireless_state s;
  chip_cellular = (cellular_item s).state;
  shape = drawing s;
  box_eth0 = eth_box "eth0" s.eth0 s;
  box_eth1 = eth_box "eth1" s.eth1 s;
  box_wifi = wifi_box s;
  box_cellular = cellular_box s;
  row_ethernet = ethernet_item s;
  row_wifi = wifi_item s;
  row_cellular = cellular_item s;
  badge_text = uplink_name (active_of s);
  badge = badge_class s;
  since = since_text local_time s;
  alert = outage_alert local_time s.audit;
  failover = failover_text local_time s.audit;
}
