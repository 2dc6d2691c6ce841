-- ===== src/Insights/Events/Rows.antt =====
-- The row of a raw event, of `evRenderTimeline` in web_console/static/js/app.js: its texts. The
-- functions of the browser are parameters: `lower` is `toLowerCase`, `day_time` and `time` are the
-- formats of `evFmtTs` and `evFmtTime`.
use Prim.Native.String.{[], String}
use gateway_hub.Prelude.{
  to_string, template, ltb, none, zero, lookup_in, ◌==◌, some, suc, ◌∷◌, or_text, if◌then◌else◌,
  Option, ℕ, List, [],
}
use Prim.Native.String
use text.Mathlib.Text.{starts_with}

pub record RawEvent : Type 0 where
  pub severity : Option String
  pub event_type : Option String
  pub device_name : Option String
  pub device_id : Option String
  pub message : Option String
  pub count : Option ℕ
  pub first_ts : Option ℕ
  pub timestamp_ms : Option ℕ

-- `SEV_TONE`
abbrev tones : List (String × String)
tones =
    ("error", "is-error")
    ∷ ("critical", "is-critical")
    ∷ ("warning", "is-warning")
    ∷ ("info", "is-info")
    ∷ ("resolved", "is-resolved")
    ∷ []

abbrev drop_chars : ℕ → String → String
drop_chars zero s = s
drop_chars (suc n) String.[] = ""
drop_chars (suc n) (String.◌∷◌ c s) = drop_chars n s

-- `s.replace(/^prefix/, by)`, the number being that of the prefix's characters.
abbrev replace_prefix : String → ℕ → String → String → String
replace_prefix prefix n by s = if starts_with s prefix then String.◌++◌ by (drop_chars n s) else s

pub record Row : Type 0 where
  pub tone : String
  pub badge : String
  pub device : String
  pub kind : String
  pub title : String
  pub shown_time : String
  pub count_badge : String
  pub message : String

abbrev nonzero_count : Option ℕ → ℕ
nonzero_count none = 1
nonzero_count (some n) = if n == 0 then 1 else n

module _ (lower : String → String) (day_time time : ℕ → String) where
  abbrev ev_fmt : (ℕ → String) → Option ℕ → String
  ev_fmt f none = ""
  ev_fmt f (some ms) = if ms == 0 then "" else f ms

  -- `evFmtTs` and `evFmtTime`
  abbrev pub ev_fmt_ts : Option ℕ → String
  ev_fmt_ts ms = ev_fmt day_time ms

  abbrev pub ev_fmt_time : Option ℕ → String
  ev_fmt_time ms = ev_fmt time ms

  unfoldable pub event_kind : Option String → String
  event_kind t = replace_prefix "anomaly:" 8 "⚡ " (replace_prefix "status:" 7 "" (or_text t ""))

  unfoldable pub event_row : RawEvent → Row
  unfolding event_kind
  event_row e =
      let sev = lower (or_text e.severity "info") in
      let count = nonzero_count e.count in
      record {
        tone = or_text (lookup_in sev tones) "is-info";
        badge = sev;
        device = or_text e.device_name (or_text e.device_id "");
        kind = event_kind e.event_type;
        title =
            if ltb 1 count
            then template (ev_fmt_ts e.first_ts ∷ "  →  " ∷ ev_fmt_ts e.timestamp_ms ∷ [])
            else ev_fmt_ts e.timestamp_ms;
        shown_time =
            if ltb 1 count
            then template (ev_fmt_time e.first_ts ∷ " → " ∷ ev_fmt_time e.timestamp_ms ∷ [])
            else ev_fmt_ts e.timestamp_ms;
        count_badge = if ltb 1 count then template ("×" ∷ to_string count ∷ []) else "";
        message = or_text e.message "";
      }
