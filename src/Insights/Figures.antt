-- ===== src/Insights/Figures.antt =====
-- `updateKPIs` of web_console/static/js/app.js: the strip of key figures.
use gateway_hub.Prelude.{
  lookup_in, ℕ, ◌+◌, Bool, false, not, ◌&&◌, Option, none, some, String, List, [], ◌∷◌, length,
  keep, find, ltb, ◌==◌, ◌===◌, or_text, template, to_string, if◌then◌else◌,
}
use gateway_hub.Insights.Data.{Device, Reading, Live, percent}
use gateway_hub.Insights.Cards.{is_some}

pub data BarHeat : Type 0 where
  cool warm hot : BarHeat

pub record Figures : Type 0 where
  pub devices : String
  pub devices_sub : String
  pub fresh : String
  pub fresh_sub : String
  pub flags : String
  pub quality : String
  pub bar_width : ℕ
  pub bar : BarHeat

abbrev pub is_reporting : Live → Bool
is_reporting l = not (or_text l.status "" === "offline")

abbrev pub device_ok : Live → Bool
device_ok l =
    not (or_text l.status "" === "error")
    && not (or_text l.status "" === "offline")
    && not (is_some l.error)

-- `ovLiveDevices.find(…)`: the first entry of the device.
unfoldable pub find_live : Device → List Live → Option Live
find_live d ls = find (λ l. l.source === d.source && l.device_id === d.device_id) ls

abbrev pub is_fresh : Option Reading → Bool
is_fresh none = false
is_fresh (some r) = is_some r.value && (or_text r.quality "" === "good")

abbrev pub count_fresh : Bool → List (String × Reading) → List String → ℕ
count_fresh ok metrics [] = 0
count_fresh ok metrics (name ∷ names) =
    let rest = count_fresh ok metrics names in
    if ok && is_fresh (lookup_in name metrics) then rest + 1 else rest

unfoldable pub fresh_of : Device → Option Live → ℕ
fresh_of d none = 0
fresh_of d (some l) = count_fresh (device_ok l) l.metrics d.expected

unfoldable pub good_metrics : List Live → List Device → ℕ
unfolding fresh_of find_live
good_metrics ls [] = 0
good_metrics ls (d ∷ ds) = fresh_of d (find_live d ls) + good_metrics ls ds

abbrev pub total_metrics : List Device → ℕ
total_metrics [] = 0
total_metrics (d ∷ ds) = length d.expected + total_metrics ds

abbrev pub fraction : ℕ → ℕ → String
fraction a b = template (to_string a ∷ "/" ∷ to_string b ∷ [])

abbrev pub heat : ℕ → BarHeat
heat pct = if ltb pct 70 then hot else if ltb pct 90 then warm else cool

abbrev pub flags_text : Option ℕ → String
flags_text none = "--"
flags_text (some n) = to_string n

-- `configured` is `ovConfiguredCount`, `flags` what `refreshFlags24h` counted last.
unfoldable pub update_kpis : ℕ → Option ℕ → List Device → List Live → Figures
unfolding good_metrics
update_kpis configured flags devices ls =
    let reporting = length (keep is_reporting ls) in
    let total = total_metrics devices in
    let good = good_metrics ls devices in
    let pct = percent good total in
    record {
      devices = if ltb 0 configured then fraction reporting configured else "--";
      devices_sub =
          if reporting == configured && ltb 0 reporting
          then "all devices reporting"
          else if reporting == 0 && ltb 0 configured
          then "nothing reporting"
          else template ("of " ∷ to_string configured ∷ " configured" ∷ []);
      fresh = if ltb 0 total then fraction good total else "--";
      fresh_sub = if good == total && ltb 0 total then "all readings healthy" else "right now";
      flags = flags_text flags;
      quality = if ltb 0 total then template (to_string pct ∷ "%" ∷ []) else "--%";
      bar_width = pct;
      bar = heat pct;
    }
