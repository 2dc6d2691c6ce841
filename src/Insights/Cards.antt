-- ===== src/Insights/Cards.antt =====
-- `applyLiveToCards` of web_console/static/js/app.js: what the live data change on the card of a
-- configured device. All elements are on the card; `age` is `fmtAge` of the time since.
use gateway_hub.Prelude.{
  lookup_in, ℕ, ◌+◌, Bool, true, false, ◌||◌, Option, none, some, String, List, [], ◌∷◌, map, ltb,
  ◌==◌, ◌===◌, or_text, truthy, template, to_string, if◌then◌else◌,
}
use gateway_hub.Prelude.Int.{ℤ}
use gateway_hub.Insights.Data.{
  Device, Reading, DeviceError, Live, device_key, percent, quality_or_good,
}
use gateway_hub.Insights.Trend.{Trend, compute_trend}

pub data StatusClass : Type 0 where
  offline live warning error : StatusClass

pub data BarClass : Type 0 where
  plain warn crit : BarClass

pub data Dot : Type 0 where
  no_dot good_dot stale_dot error_dot : Dot

pub record Tile : Type 0 where
  pub key : String
  pub is_stale : Bool
  pub is_error : Bool
  pub text : String
  pub dot : Dot
  pub trend : Trend

pub record Card : Type 0 where
  pub status : StatusClass
  pub status_text : String
  -- The classes of the card itself.
  pub is_offline : Bool
  pub is_live : Bool
  pub is_warning : Bool
  pub is_error : Bool
  pub issues_hidden : Bool
  pub issues_text : String
  pub issues_is_error : Bool
  pub health_text : String
  pub health_width : ℕ
  pub health_class : BarClass
  pub last_seen : String
  pub tiles : List Tile

pub record Health : Type 0 where
  pub good : ℕ
  pub total : ℕ
  pub stale : ℕ
  pub error : ℕ

-- The quality that counts: a reading without a value is an error.
abbrev pub counted_quality : Reading → String
counted_quality r = elim r.value [ none ↦ "error" | some v ↦ quality_or_good r ]

abbrev pub count_if : Bool → ℕ → ℕ
count_if b n = if b then n + 1 else n

-- One expected reading.
abbrev pub count_reading : Bool → Option Reading → Health → Health
count_reading in_error none h =
    if in_error then record h { total = h.total + 1; error = h.error + 1 } else h
count_reading in_error (some r) h =
    let q = counted_quality r in
    record {
      good = count_if (q === "good") h.good;
      total = h.total + 1;
      stale = count_if (q === "stale") h.stale;
      error = count_if (q === "error") h.error;
    }

abbrev pub no_health : Health
no_health = record { good = 0; total = 0; stale = 0; error = 0 }

unfoldable pub count_health : Bool → List (String × Reading) → List String → Health
count_health in_error metrics [] = no_health
count_health in_error metrics (name ∷ names) =
    count_reading in_error (lookup_in name metrics) (count_health in_error metrics names)

abbrev pub is_some : {A : Type 0} → Option A → Bool
is_some none = false
is_some (some a) = true

unfoldable pub in_error : Live → Bool
in_error l = is_some l.error || or_text l.status "" === "error"

abbrev pub dot_of : String → Dot
dot_of q = if q === "good" then good_dot else if q === "stale" then stale_dot else error_dot

abbrev pub samples_of : Option (List ℤ) → List ℤ
samples_of none = []
samples_of (some xs) = xs

abbrev pub text_of : Option String → String
text_of none = "--"
text_of (some v) = v

unfoldable pub apply_tile : Live → Tile → Tile
unfolding compute_trend
apply_tile l t = elim (lookup_in t.key l.metrics) [
  | none ↦ record t { is_stale = false; is_error = false; text = "--"; dot = no_dot }
  | some r ↦ record t {
    is_stale = counted_quality r === "stale";
    is_error = counted_quality r === "error";
    text = text_of r.value;
    dot = dot_of (counted_quality r);
    trend = compute_trend (samples_of (lookup_in t.key l.samples));
  }
]

abbrev pub plural : ℕ → String
plural n = if ltb 1 n then "s" else ""

abbrev pub error_text : DeviceError → String
error_text e = or_text e.message (or_text e.kind "device error")

-- The text of the banner, and whether it is an error; the empty text hides it.
abbrev pub issue_of : Live → Health → String × Bool
issue_of l h = elim l.error [
  | some e ↦ (error_text e, true)
  | none ↦
      if ltb 0 h.error
      then (template (to_string h.error ∷ " reading" ∷ plural h.error ∷ " not updating" ∷ []), true)
      else if ltb 0 h.stale
      then (
        template (to_string h.stale ∷ " reading" ∷ plural h.stale ∷ " running behind" ∷ []),
        false,
      )
      else ("", false)
]

abbrev pub show_issue : String × Bool → Card → Card
show_issue (text, is_err) c =
    if text === ""
    then record c { issues_hidden = true }
    else record c { issues_hidden = false; issues_text = text; issues_is_error = is_err }

abbrev pub bar_class : ℕ → BarClass
bar_class pct = if ltb pct 70 then crit else if ltb pct 90 then warn else plain

abbrev pub go_offline : Card → Card
go_offline c = record c {
  status = offline;
  status_text = "Offline";
  is_offline = true;
  is_live = false;
  is_warning = false;
  is_error = false;
}

abbrev pub unreachable_text : Option DeviceError → String
unreachable_text none = "Cannot reach this device."
unreachable_text (some e) =
    if truthy e.message
    then template ("Cannot reach this device: " ∷ or_text e.message "" ∷ [])
    else "Cannot reach this device."

-- A time of 0 is no time.
abbrev pub seen_text : (ℕ → String) → String → Option ℕ → String → String
seen_text age prefix none old = old
seen_text age prefix (some t) old = if t == 0 then old else template (prefix ∷ age t ∷ [])

abbrev pub health_pct : Bool → Health → ℕ
health_pct in_error h = if in_error then 0 else percent h.good h.total

module _ (age : ℕ → String) where
  unfoldable pub show_unreachable : Live → Card → Card
  show_unreachable l c = record (go_offline c) {
    issues_text = unreachable_text l.error;
    issues_is_error = true;
    issues_hidden = false;
    health_text = "offline";
    health_width = 0;
    health_class = crit;
    last_seen = seen_text age "Last data " l.timestamp_ms c.last_seen;
  }

  -- All but the banner.
  unfoldable pub live_card : List String → Live → Card → Card
  unfolding count_health in_error apply_tile
  live_card expected l c =
      let s = or_text l.status "ok" in
      let pct = health_pct (in_error l) (count_health (in_error l) l.metrics expected) in
      record c {
        status = if s === "ok" then live else if s === "warning" then warning else error;
        status_text = if s === "ok" then "Live" else if s === "warning" then "Warning" else "Error";
        is_offline = false;
        is_live = s === "ok";
        is_warning = s === "warning";
        is_error = s === "error";
        last_seen = seen_text age "Updated " l.timestamp_ms c.last_seen;
        tiles = map (apply_tile l) c.tiles;
        health_text = template (to_string pct ∷ "% healthy" ∷ []);
        health_width = pct;
        health_class = bar_class pct;
      }

  unfoldable pub show_live : List String → Live → Card → Card
  unfolding live_card
  show_live expected l c =
      show_issue (issue_of l (count_health (in_error l) l.metrics expected))
        (live_card expected l c)

  -- The card of a device, with the live data found for it.
  unfoldable pub apply_live : Device → Option Live → Card → Card
  unfolding show_unreachable show_live
  apply_live d none c = record (go_offline c) { issues_hidden = true }
  apply_live d (some l) c =
      if or_text l.status "ok" === "offline" then show_unreachable l c else show_live d.expected l c

-- `liveMap`: of entries with one key the last is found.
unfoldable pub live_for : String → List Live → Option Live
live_for key [] = none
live_for key (l ∷ ls) = elim (live_for key ls) [
  | some m ↦ some m
  | none ↦ if device_key l.source l.device_id === key then some l else none
]
