-- ===== src/Sensors/Readings.antt =====
-- The rows of readings of the sensor view: a row as `svRenderMetricList` builds it, and what
-- `svUpdateLiveValues` writes into it later; and the badge above the rows. A value is as `fmtVal`
-- prints it, and a missing or null one is printed as two dashes.
pub mod Agreement
use gateway_hub.Prelude.{
  not, true, lookup_in, ◌===◌, none, or_text, some, if◌then◌else◌, false, Bool, Option, String, [],
  ◌∷◌,
}
use gateway_hub.Connectivity.Fields.{trim}
use gateway_hub.Insights.Data.{Live, Reading}
use gateway_hub.Insights.Cards.{in_error, is_some, text_of}

pub record Row : Type 0 where
  pub value : String
  -- the text of the unit, which an update never writes
  pub unit : String
  -- the classes that are added to the value's, the dot's and the pill's own
  pub value_class : String
  pub dot_class : String
  pub pill_class : String
  pub pill : String

abbrev pub is_null : Reading → Bool
is_null m = not (is_some m.value)

abbrev pub value_text : Reading → String
value_text m = text_of m.value

abbrev pub value_class_of : String → String
value_class_of q = if q === "stale" then " is-stale" else if q === "error" then " is-error" else ""

-- `lm` of a row, which is the object without fields for a reading that is missing.
abbrev pub or_no_fields : Option Reading → Reading
or_no_fields none = record { value = none; quality = none; unit = none }
or_no_fields (some m) = m

abbrev pub metric_of : Option Live → String → Option Reading
metric_of none name = none
metric_of (some live) name = lookup_in name live.metrics

abbrev pub live_in_error : Option Live → Bool
live_in_error none = false
live_in_error (some live) = in_error live

-- `q` of `svRenderMetricList`
unfoldable pub built_quality : Option Live → Reading → String
built_quality live m =
    if live_in_error live
    then "error"
    else if is_null m
    then "error"
    else or_text m.quality (elim live [ none ↦ "none" | some l ↦ "good" ])

unfoldable pub row_of : String → String → String → Row
row_of unit q value = record {
  value = value;
  unit = unit;
  value_class = value_class_of q;
  dot_class =
      if q === "good"
      then " is-good"
      else if q === "stale"
      then " is-stale"
      else if q === "error"
      then " is-error"
      else "";
  pill_class = q;
  pill = if q === "none" then "—" else q;
}

-- `(m.unit || lm.unit || "").trim()`; `own` is the unit of the reading's configuration.
unfoldable pub unit_text : Option String → Reading → String
unfolding trim
unit_text own m = trim (or_text own (or_text m.unit ""))

unfoldable pub build_row : Option String → Option Live → String → Row
unfolding built_quality row_of unit_text
build_row own live name =
    let m = or_no_fields (metric_of live name) in
    row_of (unit_text own m) (built_quality live m) (value_text m)

-- A reading that the live data lack.
abbrev pub absent_row : Bool → String → Row
absent_row failed unit = record {
  value = "--";
  unit = unit;
  value_class = if failed then " is-error" else "";
  dot_class = if failed then " is-error" else "";
  pill_class = if failed then "error" else "none";
  pill = if failed then "error" else "none";
}

abbrev pub updated_quality : Bool → Reading → String
updated_quality failed m =
    if failed then "error" else if is_null m then "error" else or_text m.quality "good"

abbrev pub present_row : String → String → String → Row
present_row unit q value = record {
  value = value;
  unit = unit;
  value_class = value_class_of q;
  dot_class =
      if q === "good" then " is-good" else if q === "stale" then " is-stale" else " is-error";
  pill_class = q;
  pill = q;
}

unfoldable pub updated_row : Live → Option Reading → String → Row
updated_row live none unit = absent_row (in_error live) unit
updated_row live (some m) unit = present_row unit (updated_quality (in_error live) m) (value_text m)

-- `svUpdateLiveValues`, of one row; without live data the row stays.
unfoldable pub update_row : Option Live → String → Row → Row
unfolding updated_row
update_row none name row = row
update_row (some live) name row = updated_row live (lookup_in name live.metrics) row.unit

pub record Badge : Type 0 where
  pub cls : String
  pub text : String

-- `sc` and `sl` of a status.
abbrev pub badge_of : String → Badge
badge_of status =
    if status === "ok"
    then record { cls = "ov-status-live"; text = "Live" }
    else if status === "warning"
    then record { cls = "ov-status-warning"; text = "Warning" }
    else if status === "error"
    then record { cls = "ov-status-error"; text = "Error" }
    else record { cls = "ov-status-offline"; text = "Offline" }

abbrev status_of : Option Live → Option String
status_of none = none
status_of (some live) = live.status

unfoldable pub build_badge : Option Live → Badge
build_badge live = badge_of (or_text (status_of live) "offline")

-- The update takes a missing status for a good one.
unfoldable pub update_badge : Option Live → Badge → Badge
update_badge none badge = badge
update_badge (some live) badge = badge_of (or_text live.status "ok")
