-- ===== src/Monitor/Markers.antt =====
-- The markers on the anomaly charts of the monitor page: the status of a value, the reading that a
-- flag is drawn at, and the buckets of time that the flags of the shown window are gathered in, each
-- with its most severe flag. Times are in milliseconds and the window in microseconds; `V` is a
-- reading. Places on the canvas are not modelled: `on_plot` tells whether a flag's time lies on it, and
-- `apart` is the browser's distance of two times, as for the series of the sensor view.
pub mod Representative
pub mod Buckets
use gateway_hub.Prelude.{
  ◌-◌, max, ◌++◌, map, ◌==◌, ◌&&◌, none, ◌/◌, ◌||◌, ◌===◌, ◌*◌, false, ltb, keep, length, some, leb,
  if◌then◌else◌, or_text, String, List, Bool, Option, ℕ, [], ◌∷◌,
}
use gateway_hub.Prelude.Sort.{sort_by}
use gateway_hub.Sensors.Series.{Sample, series_value_at}

pub data Status : Type 0 where
  no_data healthy warning critical : Status

abbrev reaches : Option ℕ → ℕ → Bool
reaches none v = false
reaches (some limit) v = leb limit v

-- `statusFor`, of the critical and the safe limit.
unfoldable pub status_for : Option ℕ → Option ℕ → Option ℕ → Status
status_for crit safe none = no_data
status_for crit safe (some v) =
    if reaches crit v then critical else if reaches safe v then warning else healthy

pub record Flag (V : Type 0) : Type 0 where
  pub ts_ms : ℕ
  pub severity : Option String
  pub category : Option String
  pub detector : Option String
  pub value : Option V
  -- `hasDerived`
  pub is_derived : Bool

-- `SEV_RANK[severity] || 1`
abbrev pub rank_of : Option String → ℕ
rank_of none = 1
rank_of (some s) = if s === "Critical" then 3 else if s === "Warning" then 2 else 1

pub record Kind : Type 0 where
  pub category : String
  pub severity : Option String

-- `typeMap`, in the order of its insertions.
unfoldable pub add_kind : String → Option String → List Kind → List Kind
add_kind cat sev [] = record { category = cat; severity = sev } ∷ []
add_kind cat sev (k ∷ kinds) =
    let rest = add_kind cat sev kinds in
    let worse = record { category = cat; severity = sev } ∷ kinds in
    if k.category === cat
    then if ltb (rank_of k.severity) (rank_of sev) then worse else k ∷ kinds
    else k ∷ rest

pub record Bucket (V : Type 0) : Type 0 where
  pub key : ℕ
  pub first : Flag V
  pub rest : List (Flag V)

pub record Window : Type 0 where
  pub x_min : ℕ
  pub x_max : ℕ
  pub width : ℕ

-- `Math.floor(tSec / bucketSec)`, a bucket being 22 pixels wide.
abbrev pub bucket_key : Window → ℕ → ℕ
bucket_key w ts = (1000 * ts * w.width) / (22 * max 1 (w.x_max - w.x_min))

pub record Marker (V : Type 0) : Type 0 where
  pub key : ℕ
  pub rep : Flag V
  pub reading : Option V
  pub count : ℕ
  pub kinds : List Kind
  pub items : List (Flag V)

module _ {V : Type 0} where
  abbrev reads_value : (String → String) → Flag V → Bool
  reads_value lower a =
      let det = lower (or_text a.detector "") in
      det === "thresholddetector" || det === "rangecheckdetector" || a.is_derived

  -- `readingFor`
  unfoldable pub reading_for : (ℕ → ℕ → ℕ) → (String → String) → List (Sample V) → Flag V → Option V
  reading_for apart lower line a = elim a.value [
    | none ↦ series_value_at apart a.ts_ms line
    | some v ↦ if reads_value lower a then some v else series_value_at apart a.ts_ms line
  ]

  -- Whether a flag takes the place of the representative so far.
  abbrev pub outranks : Flag V → Flag V → Bool
  outranks a rep =
      ltb (rank_of rep.severity) (rank_of a.severity)
      || (rank_of a.severity == rank_of rep.severity && ltb rep.ts_ms a.ts_ms)

  unfoldable pub representative : Flag V → List (Flag V) → Flag V
  representative rep [] = rep
  representative rep (a ∷ items) = representative (if outranks a rep then a else rep) items

  unfoldable pub kinds_from : List Kind → List (Flag V) → List Kind
  unfolding add_kind
  kinds_from kinds [] = kinds
  kinds_from kinds (a ∷ items) =
      kinds_from (add_kind (or_text a.category "Anomaly") a.severity kinds) items

  abbrev pub items_of : Bucket V → List (Flag V)
  items_of b = b.first ∷ b.rest

  -- `buckets.get(key)` with `push`, or `buckets.set(key, [a])`.
  unfoldable pub add_flag : ℕ → Flag V → List (Bucket V) → List (Bucket V)
  add_flag key a [] = record { key = key; first = a; rest = [] } ∷ []
  add_flag key a (b ∷ buckets) =
      let others = add_flag key a buckets in
      if b.key == key then record b { rest = b.rest ++ (a ∷ []) } ∷ buckets else b ∷ others

  abbrev pub is_shown : Window → Flag V → Bool
  is_shown w a = leb w.x_min (1000 * a.ts_ms) && leb (1000 * a.ts_ms) w.x_max

  unfoldable pub bucket_from : Window → List (Bucket V) → List (Flag V) → List (Bucket V)
  unfolding add_flag
  bucket_from w buckets [] = buckets
  bucket_from w buckets (a ∷ flags) =
      bucket_from w (if is_shown w a then add_flag (bucket_key w a.ts_ms) a buckets else buckets)
        flags

  abbrev pub earlier : Flag V → Flag V → Bool
  earlier a b = leb a.ts_ms b.ts_ms

  unfoldable pub marker_of : (ℕ → ℕ → ℕ) → (String → String) → List (Sample V) → Bucket V → Marker V
  unfolding representative kinds_from reading_for
  marker_of apart lower line b =
      let rep = representative b.first (items_of b) in
      record {
        key = b.key;
        rep = rep;
        reading = reading_for apart lower line rep;
        count = length (items_of b);
        kinds = kinds_from [] (items_of b);
        items = sort_by earlier (items_of b);
      }

  unfoldable pub markers :
      (ℕ → ℕ → ℕ)
      → (String → String)
      → (ℕ → Bool)
      → List (Sample V)
      → Window
      → List (Flag V)
      → List (Marker V)
  unfolding bucket_from marker_of
  markers apart lower on_plot line w flags =
      keep (λ m. on_plot m.rep.ts_ms) (map (marker_of apart lower line) (bucket_from w [] flags))
