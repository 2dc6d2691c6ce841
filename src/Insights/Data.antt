-- ===== src/Insights/Data.antt =====
-- The devices of the insights page in web_console/static/js/app.js: as they are configured, and as
-- the live data tell of them.
use gateway_hub.Prelude.{
  ℕ, ◌+◌, ◌*◌, ◌/◌, Option, String, List, [], ◌∷◌, ltb, or_text, template, if◌then◌else◌,
}
use gateway_hub.Prelude.Int.{ℤ}

pub record Device : Type 0 where
  pub source : String
  pub device_id : String
  -- The names of its `expected_metrics`.
  pub expected : List String

-- A value is none where it is null or missing, else as `fmtVal` prints it.
pub record Reading : Type 0 where
  pub value : Option String
  pub quality : Option String
  pub unit : Option String

pub record DeviceError : Type 0 where
  pub message : Option String
  pub kind : Option String

pub record Live : Type 0 where
  pub source : String
  pub device_id : String
  pub status : Option String
  pub error : Option DeviceError
  pub timestamp_ms : Option ℕ
  pub metrics : List (String × Reading)
  pub samples : List (String × List ℤ)

abbrev pub device_key : String → String → String
device_key source device_id = template (source ∷ ":" ∷ device_id ∷ [])

-- `Math.round(part / whole * 100)`, or 0 for none.
abbrev pub percent : ℕ → ℕ → ℕ
percent part whole = if ltb 0 whole then (200 * part + whole) / (2 * whole) else 0

-- `v || d` for a quality.
abbrev pub quality_or_good : Reading → String
quality_or_good r = or_text r.quality "good"
