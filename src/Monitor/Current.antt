-- ===== src/Monitor/Current.antt =====
-- The live figures of the monitor page: `applyCurrentMetrics` and what it calls. Percentages and
-- temperatures are whole numbers of tenths, loads of hundredths, and a bar's percentage is an exact
-- fraction, where the script has floating-point numbers. `grouped` is `toLocaleString`, `hex` is
-- `toString(16)`, `fixed1` and `fixed2` print tenths and hundredths, as `toFixed` does.
pub mod Bars
use gateway_hub.Monitor.Figures.{
  fmt_bytes, at_most_hundred, fmt_mb, of_tenths, whole, fmt_duration, Fraction, Bar, set_kpi_bar,
}
use gateway_hub.Format.{seconds, minutes, hours_minutes, days_hours, Span}
use gateway_hub.Prelude.{
  ◌%◌, ◌&&◌, map, to_string, none, ◌/◌, some, ltb, template, length, min, ◌==◌, max, suc, leb, not,
  true, ◌+◌, Bool, false, ◌*◌, ℕ, Option, String, if◌then◌else◌, List, [], ◌∷◌,
}
use gateway_hub.Prelude.Int.{ℤ, pos, negsuc, pos_part, neg_part, ltb_ℤ}

pub record Core : Type 0 where
  pub core : String
  pub usage : ℕ
  pub freq_mhz : ℕ

pub record Metrics : Type 0 where
  pub cpu_tenths : ℕ
  pub per_core : List Core
  pub core_count : ℕ
  pub load_1m : Option ℕ
  pub load_5m : Option ℕ
  pub load_15m : Option ℕ
  pub throttle_flags : ℕ
  pub mem_tenths : ℕ
  pub mem_used : ℕ
  pub mem_total : ℕ
  pub swap_used_mb : ℕ
  pub temp_tenths : Option ℤ
  pub disk_tenths : ℕ
  pub emmc_tenths : Option ℕ
  pub emmc_used_mb : ℕ
  pub emmc_total_mb : ℕ
  pub emmc_life : ℕ
  pub uptime_sec : ℕ

-- A figure with its line below, its bar, and the text above its chart.
pub record Kpi : Type 0 where
  pub value : String
  pub sub : String
  pub live : String
  pub bar : Bar

pub record CoreItem : Type 0 where
  pub height : ℕ
  pub value : String
  pub label : String
  pub freq : Option ℕ

pub record MonitorPage : Type 0 where
  pub cpu : Kpi
  pub memory : Kpi
  pub temp : Kpi
  pub disk : Kpi
  -- none while it waits for telemetry
  pub cores : Option (List CoreItem)
  pub loads : List String
  pub load_summary : String
  pub throttle : String
  pub emmc_life : String
  pub uptime : Option Span
  pub swap : String

abbrev pub waiting_kpi : Bool → String → Kpi → Kpi
waiting_kpi is_temp live k = record {
  value = "--";
  sub = "Waiting for telemetry";
  live = live;
  bar = set_kpi_bar is_temp (whole 0) k.bar;
}

-- `applyTelemetryUnavailable`
unfoldable pub telemetry_unavailable : MonitorPage → MonitorPage
unfolding set_kpi_bar
telemetry_unavailable p = record {
  cpu = waiting_kpi false "--%" p.cpu;
  memory = waiting_kpi false "--%" p.memory;
  temp = waiting_kpi true "-- °C" p.temp;
  disk = waiting_kpi false "--%" p.disk;
  cores = none;
  loads = "--" ∷ "--" ∷ "--" ∷ [];
  load_summary = "Waiting for system telemetry.";
  throttle = "--";
  emmc_life = "--";
  uptime = none;
  swap = "--";
}

abbrev largest_freq : List Core → ℕ
largest_freq [] = 0
largest_freq (c ∷ cores) = max c.freq_mhz (largest_freq cores)

abbrev cores_text : List Core → String
cores_text cores =
    let n = length cores in template (to_string n ∷ " core" ∷ (if n == 1 then "" else "s") ∷ [])

abbrev pub percent_of : ℕ → Fraction
percent_of tenths = of_tenths (pos tenths)

-- `Math.min(100, (tempC / 85) * 100)`
abbrev pub temp_percent : ℤ → Fraction
temp_percent (pos t) = at_most_hundred (record { top = pos (t * 100); below = 849 })
temp_percent (negsuc t) = record { top = negsuc (t * 100 + 99); below = 849 }

abbrev pub temp_text : ℤ → String
temp_text t =
    if ltb_ℤ t (pos 500)
    then "Normal operating range"
    else if ltb_ℤ t (pos 700)
    then "Warm, monitor load"
    else "Thermal risk"

-- The tone of a load in hundredths on a number of cores.
unfoldable pub load_tone : ℕ → ℕ → String
load_tone load cores =
    if ltb (2 * load) (100 * cores)
    then "light"
    else if ltb (100 * load) (8500 * cores)
    then "moderate"
    else if leb (100 * load) (10500 * cores)
    then "near capacity"
    else "over capacity"

-- `core_count || perCore.length || 1`
abbrev pub count_cores : Metrics → ℕ
count_cores m =
    let n = length m.per_core in if m.core_count == 0 then if n == 0 then 1 else n else m.core_count

abbrev zero_or : Option ℕ → ℕ
zero_or none = 0
zero_or (some n) = n

module _ (fixed1 fixed2 grouped hex : ℕ → String) (fixed1_ℤ : ℤ → String) where
  abbrev percent_text : ℕ → String
  percent_text tenths = template (fixed1 tenths ∷ "%" ∷ [])

  abbrev load_text : Option ℕ → String
  load_text none = "--"
  load_text (some n) = fixed2 n

  unfoldable pub cpu_kpi : Metrics → Kpi → Kpi
  unfolding set_kpi_bar
  cpu_kpi m k =
      let freq = largest_freq m.per_core in
      record {
        value = percent_text m.cpu_tenths;
        sub =
            if freq == 0
            then cores_text m.per_core
            else template (cores_text m.per_core ∷ " · max " ∷ to_string freq ∷ " MHz" ∷ []);
        live = percent_text m.cpu_tenths;
        bar = set_kpi_bar false (percent_of m.cpu_tenths) k.bar;
      }

  unfoldable pub memory_kpi : Metrics → Kpi → Kpi
  unfolding set_kpi_bar fmt_bytes
  memory_kpi m k = record {
    value = percent_text m.mem_tenths;
    sub =
        if m.mem_total == 0
        then "No data"
        else template (fmt_bytes fixed1 m.mem_used ∷ " of " ∷ fmt_bytes fixed1 m.mem_total ∷ []);
    live = percent_text m.mem_tenths;
    bar = set_kpi_bar false (percent_of m.mem_tenths) k.bar;
  }

  unfoldable pub temp_kpi : Option ℤ → Kpi → Kpi
  unfolding set_kpi_bar
  temp_kpi none k = record {
    value = "--";
    sub = "No sensor";
    live = "-- °C";
    bar = set_kpi_bar true (whole 0) k.bar;
  }
  temp_kpi (some t) k = record {
    value = template (fixed1_ℤ t ∷ "°C" ∷ []);
    sub = temp_text t;
    live = template (fixed1_ℤ t ∷ " °C" ∷ []);
    bar = set_kpi_bar true (temp_percent t) k.bar;
  }

  unfoldable pub disk_kpi : Metrics → Kpi → Kpi
  unfolding set_kpi_bar fmt_mb
  disk_kpi m k = record {
    value = percent_text m.disk_tenths;
    sub =
        if m.emmc_total_mb == 0
        then template ("root " ∷ percent_text m.disk_tenths ∷ [])
        else template (
            "root "
            ∷ percent_text m.disk_tenths
            ∷ " · eMMC "
            ∷ fmt_mb fixed1 grouped m.emmc_used_mb
            ∷ " of "
            ∷ fmt_mb fixed1 grouped m.emmc_total_mb
            ∷ []);
    live = elim m.emmc_tenths [ none ↦ percent_text m.disk_tenths | some t ↦ percent_text t ];
    bar = set_kpi_bar false (percent_of m.disk_tenths) k.bar;
  }

  unfoldable pub core_item : Core → CoreItem
  core_item c = record {
    height = min 1000 c.usage;
    value = percent_text c.usage;
    label = template ("C" ∷ c.core ∷ []);
    freq = if c.freq_mhz == 0 then none else some c.freq_mhz;
  }

  unfoldable pub summary_of : Metrics → String
  unfolding load_tone
  summary_of m =
      let load = zero_or m.load_1m in
      let cores = count_cores m in
      template (
        fixed2 load
        ∷ " active/queued tasks on "
        ∷ to_string cores
        ∷ " CPU core"
        ∷ (if cores == 1 then "" else "s")
        ∷ "; "
        ∷ fixed2 (100 * cores)
        ∷ " means full CPU capacity. Current load is "
        ∷ load_tone load cores
        ∷ "."
        ∷ [])

  -- `applyCurrentMetrics`, of metrics that the gateway's core sent; the bars of the cores stay when
  -- there are none. `none` stands for an answer without them.
  unfoldable pub apply_current : Option Metrics → MonitorPage → MonitorPage
  unfolding telemetry_unavailable cpu_kpi memory_kpi temp_kpi disk_kpi core_item summary_of
  apply_current none p = telemetry_unavailable p
  apply_current (some m) p = record {
    cpu = cpu_kpi m p.cpu;
    memory = memory_kpi m p.memory;
    temp = temp_kpi m.temp_tenths p.temp;
    disk = disk_kpi m p.disk;
    cores = if length m.per_core == 0 then p.cores else some (map core_item m.per_core);
    loads = load_text m.load_1m ∷ load_text m.load_5m ∷ load_text m.load_15m ∷ [];
    load_summary = summary_of m;
    throttle =
        if m.throttle_flags == 0
        then "None"
        else template ("0x" ∷ hex m.throttle_flags ∷ " active" ∷ []);
    emmc_life =
        if m.emmc_life == 0 then "Unavailable" else template (to_string m.emmc_life ∷ "%" ∷ []);
    uptime = some (fmt_duration m.uptime_sec);
    swap = fmt_mb fixed1 grouped m.swap_used_mb;
  }
