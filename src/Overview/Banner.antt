-- ===== src/Overview/Banner.antt =====
-- The banner of `applyOverviewState` in web_console/static/js/app.js: the active uplink, outages and
-- failovers. `local_time` is the reader's clock: `new Date(ms).toLocaleString(…)`.
use gateway_hub.Prelude.{
  ℕ, Bool, true, false, not, ◌&&◌, Option, none, some, String, [], ◌∷◌, ◌==◌, ◌===◌, or_text,
  template, to_string, if◌then◌else◌,
}
use gateway_hub.Format.{fmt_dur_ms, print}
use gateway_hub.Network.{Outage, Audit, NetworkState, active_of}
use gateway_hub.Overview.{any_online}

unfoldable pub uplink_name : String → String
uplink_name key =
    if key === "eth0"
    then "Ethernet (eth0)"
    else if key === "eth1"
    then "Ethernet (eth1)"
    else if key === "wifi_client"
    then "Wi-Fi"
    else if key === "cellular"
    then "Cellular"
    else if key === "none"
    then "Offline"
    else or_text (some key) "—"

-- The class that the uplink badge carries.

pub data BadgeClass : Type 0 where
  is_none is_active : BadgeClass

unfoldable pub badge_class : NetworkState → BadgeClass
badge_class s =
    if active_of s === "none" then is_none else if any_online s then is_active else is_none

abbrev pub or_zero : Option ℕ → ℕ
or_zero none = 0
or_zero (some n) = n

abbrev pub is_some : {A : Type 0} → Option A → Bool
is_some none = false
is_some (some a) = true

abbrev dur_text : Option ℕ → String
dur_text ms = print (fmt_dur_ms ms)

pub record OutageAlert : Type 0 where
  pub is_active : Bool
  pub title : String
  pub time : String
  pub reason : String

-- `audit.uplink_switch_count ?? audit.counts?.uplink_switches ?? 0`
abbrev pub switches_of : Audit → ℕ
switches_of a = elim a.uplink_switch_count [ some n ↦ n | none ↦ or_zero a.counted_switches ]

module _ (local_time : ℕ → String) where
  unfoldable pub fmt_date_time : Option ℕ → String
  fmt_date_time none = "—"
  fmt_date_time (some ms) = if ms == 0 then "—" else local_time ms

  unfoldable pub since_text : NetworkState → String
  unfolding fmt_date_time fmt_dur_ms print
  since_text s =
      let idle = active_of s === "none" in
      if is_some s.audit.active_duration_ms && not idle
      then template (
          "Active since "
          ∷ fmt_date_time s.audit.active_uplink_since_ms
          ∷ " ("
          ∷ dur_text s.audit.active_duration_ms
          ∷ ")"
          ∷ [])
      else if idle
      then "No active uplink"
      else "Monitoring uplink…"

  abbrev pub open_alert : Outage → OutageAlert
  open_alert o = record {
    is_active = true;
    title = template ("Outage now · " ∷ dur_text (some (or_zero o.duration_ms)) ∷ []);
    time = template ("Started " ∷ fmt_date_time o.started_at_ms ∷ []);
    reason = or_text o.reason "No active uplink";
  }

  abbrev pub last_alert : Outage → OutageAlert
  last_alert o = record {
    is_active = false;
    title = template ("Last outage · " ∷ dur_text o.duration_ms ∷ []);
    time = template (fmt_date_time o.started_at_ms ∷ " → " ∷ fmt_date_time o.ended_at_ms ∷ []);
    reason = or_text o.reason "Recovered";
  }

  unfoldable pub outage_alert : Audit → OutageAlert
  unfolding fmt_date_time fmt_dur_ms print
  outage_alert a = elim a.open_outage [
    | some o ↦ open_alert o
    | none ↦ elim a.last_outage [
      | some o ↦ last_alert o
      | none ↦ record {
        is_active = false;
        title = "No outage recorded";
        time = "monitoring";
        reason = "Events will appear after first outage or failover.";
      }
    ]
  ]

  unfoldable pub failover_text : Audit → String
  unfolding fmt_date_time uplink_name
  failover_text a =
      let sw = switches_of a in
      elim a.last_switch [
        | some ls ↦ template (
            to_string sw
            ∷ " switch"
            ∷ (if sw == 1 then "" else "es")
            ∷ " · last "
            ∷ fmt_date_time ls.timestamp_ms
            ∷ " · "
            ∷ uplink_name (or_text ls.previous_uplink "")
            ∷ " → "
            ∷ uplink_name (or_text ls.active_uplink "")
            ∷ [])
        | none ↦ elim a.open_outage [
          | some o ↦ template ("Open outage started " ∷ fmt_date_time o.started_at_ms ∷ [])
          | none ↦ "No failover/outage recorded"
        ]
      ]
