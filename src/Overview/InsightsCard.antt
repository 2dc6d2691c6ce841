-- ===== src/Overview/InsightsCard.antt =====
-- The insights card of the overview in web_console/static/js/app.js: `refreshInsightsSummary`, once
-- its three answers are there and the first is ok.
pub mod Problems
use text.Mathlib.Text.{starts_with}
use gateway_hub.Prelude.{
  drop, leb, take, ◌==◌, not, ◌||◌, ◌&&◌, keep, [], ◌===◌, to_string, ◌+◌, if◌then◌else◌, template,
  ◌∷◌, map, length, or_text, some, none, ltb, List, String, Bool, Option, ℕ,
}
use gateway_hub.Prelude.Sort.{sort_by}

pub record Configured : Type 0 where
  pub source : String
  pub device_id : String
  pub name : Option String

pub record LiveDevice : Type 0 where
  pub source : String
  pub device_id : String
  pub status : Option String

pub record FlagEvent : Type 0 where
  pub source : String
  pub device_id : String
  pub event_type : Option String
  -- `_count || 1`
  pub count : ℕ

pub record Row : Type 0 where
  pub name : String
  pub rank : ℕ
  pub flags : ℕ
  pub dot : String
  pub text : String
  pub text_cls : String

abbrev pub rows_limit : ℕ
rows_limit = 5

abbrev pub key_of : String → String → String
key_of source device_id = template (source ∷ ":" ∷ device_id ∷ [])

abbrev pub is_flag : FlagEvent → Bool
is_flag e = starts_with (or_text e.event_type "") "anomaly:"

-- `flagsByKey[key] || 0`
abbrev pub flags_of : String → List FlagEvent → ℕ
flags_of key [] = 0
flags_of key (e ∷ events) =
    if is_flag e && (key_of e.source e.device_id === key)
    then e.count + flags_of key events
    else flags_of key events

abbrev pub total_flags : List FlagEvent → ℕ
total_flags [] = 0
total_flags (e ∷ events) = if is_flag e then e.count + total_flags events else total_flags events

-- `liveByKey[key]`: of devices with one key, the last.
abbrev pub live_of : String → List LiveDevice → Option LiveDevice
live_of key [] = none
live_of key (l ∷ live) = elim (live_of key live) [
  | some m ↦ some m
  | none ↦ if key_of l.source l.device_id === key then some l else none
]

abbrev pub status_of : Option LiveDevice → String
status_of none = "offline"
status_of (some l) = or_text l.status "offline"

abbrev pub plural : ℕ → String
plural n = if ltb 1 n then "s" else ""

-- The row of a device by its status and its flags.
unfoldable pub make_row : String → String → ℕ → Row
make_row name status flags =
    if status === "offline" || status === "error"
    then record {
      name = name;
      rank = 0;
      flags = flags;
      dot = "is-err";
      text = if status === "offline" then "Offline" else "Error";
      text_cls = "is-err";
    }
    else if ltb 0 flags
    then record {
      name = name;
      rank = 1;
      flags = flags;
      dot = "is-warn";
      text = template (to_string flags ∷ " flag" ∷ plural flags ∷ []);
      text_cls = "is-warn";
    }
    else record { name = name; rank = 2; flags = flags; dot = ""; text = "OK"; text_cls = "" }

abbrev pub row_of : List LiveDevice → List FlagEvent → Configured → Row
row_of live events d =
    let key = key_of d.source d.device_id in
    make_row (or_text d.name d.device_id) (status_of (live_of key live)) (flags_of key events)

-- `a.rank - b.rank || b.flags - a.flags` is at most 0.
unfoldable pub worse_first : Row → Row → Bool
worse_first a b = ltb a.rank b.rank || (a.rank == b.rank && leb b.flags a.flags)

unfoldable pub rows_of : List Configured → List LiveDevice → List FlagEvent → List Row
unfolding worse_first
rows_of configured live events = sort_by worse_first (map (row_of live events) configured)

abbrev pub is_bad : Row → Bool
is_bad r = ltb r.rank 2

pub record Summary : Type 0 where
  pub shown : List Row
  -- The line under the rows, and whether it is a warning.
  pub more : Option (String × Bool)
  pub devices : String
  pub flags : String
  pub flags_warn : Bool
  pub sub : String

abbrev pub more_line : List Row → Option (String × Bool)
more_line hidden =
    let extra = length hidden in
    let bad = length (keep is_bad hidden) in
    if extra == 0
    then none
    else some (
      template (
          "+"
          ∷ to_string extra
          ∷ " more sensor"
          ∷ plural extra
          ∷ (if ltb 0 bad
              then template (" (" ∷ to_string bad ∷ " also flagged)" ∷ [])
              else ", all nominal")
          ∷ []),
      ltb 0 bad,
    )

abbrev pub sub_text : ℕ → ℕ → ℕ → String
sub_text bad flags total =
    if ltb 0 bad
    then template (to_string bad ∷ " device" ∷ plural bad ∷ " unreachable right now" ∷ [])
    else if ltb 0 flags
    then template (to_string flags ∷ " flag" ∷ plural flags ∷ " in the last 24 h" ∷ [])
    else if ltb 0 total
    then template ("All " ∷ to_string total ∷ " device" ∷ plural total ∷ " nominal" ∷ [])
    else "No sensors configured yet"

unfoldable pub summary : List Configured → List LiveDevice → List FlagEvent → Summary
unfolding rows_of
summary configured live events =
    let rows = rows_of configured live events in
    let total = length configured in
    let on = length (keep (λ l. not (or_text l.status "" === "offline")) live) in
    let flags = total_flags events in
    record {
      shown = take rows_limit rows;
      more = more_line (drop rows_limit rows);
      devices = template (to_string on ∷ "/" ∷ to_string total ∷ []);
      flags = to_string flags;
      flags_warn = ltb 0 flags;
      sub = sub_text (length (keep (λ r. r.rank == 0) rows)) flags total;
    }
