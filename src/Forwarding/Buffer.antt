-- ===== src/Forwarding/Buffer.antt =====
-- The panel of buffered messages on the forwarding page of web_console/static/js/app.js
-- (`fwRefreshBuffer`), the sparkline, the names of the configured profiles and the tabs. `grouped` is
-- `toLocaleString` of a number. A delivery rate is in tenths of a percent, and `decimal` prints it.
pub mod Sparkline
use gateway_hub.Prelude.{
  or_text, false, template, set_key, ◌/◌, truthy, length, max, leb, none, ◌-◌, ◌+◌, map, ltb, not,
  ◌*◌, to_string, [], if◌then◌else◌, ◌∷◌, some, ◌===◌, Bool, Option, String, List, ℕ,
}
use gateway_hub.Incidents.Data.{Response, failed, refused, answered}

pub record Storage : Type 0 where
  -- `db_size_mb` as it is printed; none for 0 and for a missing one.
  pub used_mb : Option String
  pub retention_days : Option ℕ

pub record BufferBody : Type 0 where
  pub ok : Bool
  pub total_pending : Option ℕ
  pub total_replayed : Option ℕ
  pub total_dropped : Option ℕ
  pub success_rate : Option ℕ
  pub storage : Option Storage

pub data Colour : Type 0 where
  muted success failing accent : Colour

pub record BufferPanel : Type 0 where
  pub hidden : Bool
  pub storage_info : String
  pub pending : String
  pub replayed : String
  pub dropped : String
  pub rate : String
  pub rate_colour : Colour

-- `n ?? d`
abbrev pub or_else : Option ℕ → ℕ → ℕ
or_else none d = d
or_else (some n) d = n

unfoldable pub storage_text : Storage → String
storage_text s =
    let days = to_string (or_else s.retention_days 31) in
    elim s.used_mb [
      | none ↦ template (
          "SQLite on disk · backlog bounded by " ∷ days ∷ "-day retention · survives restarts" ∷ [])
      | some mb ↦ template (
          "SQLite on disk · " ∷ mb ∷ " MB used · backlog bounded by " ∷ days
          ∷ "-day retention · survives restarts" ∷ [])
    ]

unfoldable pub storage_shown : Option Storage → String → String
unfolding storage_text
storage_shown none before = before
storage_shown (some s) before = storage_text s

unfoldable pub rate_colour_of : ℕ → Colour
rate_colour_of rate = if leb 1000 rate then success else if ltb rate 900 then failing else accent

module _ (grouped decimal : ℕ → String) where
  unfoldable pub show_buffer : BufferBody → BufferPanel → BufferPanel
  unfolding storage_shown rate_colour_of
  show_buffer b p =
      let replayed = or_else b.total_replayed 0 in
      let dropped = or_else b.total_dropped 0 in
      let rate = or_else b.success_rate 1000 in
      let has_history = ltb 0 (replayed + dropped) in
      record {
        hidden = false;
        storage_info = storage_shown b.storage p.storage_info;
        pending = grouped (or_else b.total_pending 0);
        replayed = grouped replayed;
        dropped = grouped dropped;
        rate = if has_history then template (decimal rate ∷ "%" ∷ []) else "—";
        rate_colour = if has_history then rate_colour_of rate else muted;
      }

  unfoldable pub refresh_buffer : Response BufferBody → BufferPanel → BufferPanel
  unfolding show_buffer
  refresh_buffer failed p = p
  refresh_buffer refused p = p
  refresh_buffer (answered b) p = if b.ok then show_buffer b p else p

-- A point of the sparkline, in its box.
pub record Point : Type 0 where
  pub x : ℕ
  pub y : ℕ

-- `Math.max(...history, 1)`
abbrev pub largest : List ℕ → ℕ
largest [] = 1
largest (v ∷ history) = max v (largest history)

-- `Math.round(i / gaps * width)` and `Math.round(height - v / top * (height - 2) - 1)` of the default
-- box, 120 by 32; the values are at most `top`.
abbrev pub x_of : ℕ → ℕ → ℕ
x_of gaps i = (240 * i + gaps) / (2 * gaps)

abbrev pub y_of : ℕ → ℕ → ℕ
y_of top v = (63 * top - 60 * v) / (2 * top)

unfoldable pub points_from : ℕ → ℕ → ℕ → List ℕ → List Point
points_from gaps top i [] = []
points_from gaps top i (v ∷ history) =
    record { x = x_of gaps i; y = y_of top v } ∷ points_from gaps top (i + 1) history

-- `_fwSparkline`; a history of fewer than two values draws nothing.
unfoldable pub sparkline : List ℕ → List Point
unfolding points_from
sparkline history =
    if ltb (length history) 2
    then []
    else points_from (length history - 1) (largest history) 0 history

pub record ConfigProfile : Type 0 where
  pub id : Option String
  pub name : Option String
  pub protocol : Option String

pub record Meta : Type 0 where
  pub name : String
  pub protocol : String

-- `_buildConfigNameMap`, of the profiles of an answer; `upper` is `toUpperCase`.
module _ (upper : String → String) where
  unfoldable pub add_name : ConfigProfile → List (String × Meta) → List (String × Meta)
  add_name p names =
      if truthy p.id
      then set_key (or_text p.id "")
          (record {
            name = or_text p.name "Unnamed Profile";
            protocol = upper (or_text p.protocol "mqtt");
          })
          names
      else names

  unfoldable pub add_names : List ConfigProfile → List (String × Meta) → List (String × Meta)
  unfolding add_name
  add_names [] names = names
  add_names (p ∷ profiles) names = add_names profiles (add_name p names)

  unfoldable pub build_config_name_map :
      Response (Option (List ConfigProfile)) → List (String × Meta) → List (String × Meta)
  unfolding add_names
  build_config_name_map failed names = names
  build_config_name_map refused names = names
  build_config_name_map (answered none) names = []
  build_config_name_map (answered (some profiles)) names = add_names profiles []

-- A tab's button or panel, which carries the name of its tab.
pub record TabButton : Type 0 where
  pub tab : String
  pub is_current : Bool
  pub aria_selected : String

pub record TabPanel : Type 0 where
  pub tab : String
  pub is_hidden : Bool

-- `syncFwTabs`
unfoldable pub sync_button : String → TabButton → TabButton
sync_button id b =
    let current = b.tab === id in
    record b { is_current = current; aria_selected = if current then "true" else "false" }

unfoldable pub sync_panel : String → TabPanel → TabPanel
sync_panel id p = record p { is_hidden = not (p.tab === id) }

unfoldable pub sync_fw_tabs :
    String → List TabButton × List TabPanel → List TabButton × List TabPanel
unfolding sync_button sync_panel
sync_fw_tabs id (buttons, panels) = (map (sync_button id) buttons, map (sync_panel id) panels)
