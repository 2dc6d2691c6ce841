-- ===== src/Connectivity/Cellular.antt =====
-- `updateCellularStatus` of web_console/static/js/app.js. `_celFmtTs` and the time of the next attempt
-- are in the reader's locale, `locale` and `locale_time`; the clock is in milliseconds.
pub mod Rows
use gateway_hub.Connectivity.Bytes.{fmt_bytes}
use gateway_hub.Prelude.{
  joined, ◌/◌, length, ◌-◌, lookup_text, ◌||◌, or_text, truthy, ◌==◌, none, to_string, ◌+◌, ltb,
  ◌===◌, false, ◌∷◌, [], some, ◌++◌, map, template, ◌*◌, if◌then◌else◌, Bool, List, String, Option,
  ℕ,
}
use gateway_hub.Prelude.Int.{int_text, negsuc, pos, ℤ}

pub record Retry : Type 0 where
  pub attempt_count : Option ℕ
  pub last_attempt_timestamp : Option String
  pub next_attempt_epoch : Option ℕ
  pub last_result : Option String
  pub last_reason : Option String

pub record Modem : Type 0 where
  pub present : Bool
  pub modem_manufacturer : Option String
  pub modem_model : Option String
  pub modem_revision : Option String
  pub sim_status : Option String
  pub operator : Option String
  pub signal_dbm : Option ℤ
  pub signal_percent : Option ℕ
  pub registration_state : Option String
  pub registered : Bool
  pub roaming : Bool
  pub access_technology : Option String
  pub connected : Bool
  pub internet_ok : Bool
  pub address : Option String
  pub gateway : Option String
  pub dns : List String
  pub session_rx_bytes : Option ℕ
  pub session_tx_bytes : Option ℕ
  pub rx_bytes : Option ℕ
  pub tx_bytes : Option ℕ
  pub last_connect_timestamp : Option String
  pub last_disconnect_timestamp : Option String
  pub last_error : Option String
  pub retry : Option Retry

-- The texts by the key of their element, and the two rows that may be hidden.
pub record CelPage : Type 0 where
  pub texts : String → String
  pub error_shown : Bool
  pub retry_shown : Bool

abbrev pub all_keys : List String
all_keys =
    "present" ∷ "modem_hardware" ∷ "sim_status" ∷ "operator" ∷ "signal" ∷ "registration_state"
    ∷ "registered" ∷ "roaming" ∷ "access_tech" ∷ "connected" ∷ "internet_ok" ∷ "address" ∷ "gateway"
    ∷ "dns" ∷ "active_uplink" ∷ "session_usage" ∷ "total_usage" ∷ "last_connect" ∷ "last_disconnect"
    ∷ []

-- `_celSet`, for each of a list of elements.
abbrev pub set_all : List (String × String) → (String → String) → String → String
set_all [] texts = texts
set_all ((k, v) ∷ table) texts = set_all table (λ j. if j === k then v else texts j)

-- `parts.filter(Boolean)`
abbrev pub present_texts : List (Option String) → List String
present_texts [] = []
present_texts (p ∷ ps) =
    let rest = present_texts ps in if truthy p then or_text p "" ∷ rest else rest

abbrev pub or_else : String → String → String
or_else s d = if s === "" then d else s

abbrev pub hardware_text : Modem → String
hardware_text c =
    or_else
      (joined " / " (present_texts (c.modem_manufacturer ∷ c.modem_model ∷ c.modem_revision ∷ [])))
      (if c.present then "—" else "Not detected")

abbrev pub sim_names : List (String × String)
sim_names =
    ("ready", "Ready")
    ∷ ("locked", "Locked (PIN required)")
    ∷ ("missing", "No SIM inserted")
    ∷ ("error", "SIM error")
    ∷ []

-- `names[status] || status || "—"`
abbrev pub sim_text : Option String → String
sim_text none = "—"
sim_text (some s) = or_text (lookup_text s sim_names) (or_text (some s) "—")

-- A signal of 0 dBm is none.
abbrev pub dbm_part : Option ℤ → List String
dbm_part none = []
dbm_part (some (pos n)) = if n == 0 then [] else template (to_string n ∷ " dBm" ∷ []) ∷ []
dbm_part (some (negsuc n)) = template (int_text (negsuc n) ∷ " dBm" ∷ []) ∷ []

abbrev pub percent_part : Option ℕ → List String
percent_part none = []
percent_part (some n) = template (to_string n ∷ "%" ∷ []) ∷ []

abbrev pub signal_text : Modem → String
signal_text c = or_else (joined "  " (dbm_part c.signal_dbm ++ percent_part c.signal_percent)) "—"

abbrev pub bytes_of : Option ℕ → String
unfolding fmt_bytes
bytes_of none = "0 B"
bytes_of (some n) = fmt_bytes n

abbrev pub usage_text : Option ℕ → Option ℕ → String
usage_text rx tx = template ("↓ " ∷ bytes_of rx ∷ "  ↑ " ∷ bytes_of tx ∷ [])

abbrev pub uplink_text : Option String → String
uplink_text none = "—"
uplink_text (some u) = if u === "cellular" then "Cellular (active)" else or_text (some u) "—"

abbrev pub count_of : Option ℕ → ℕ
count_of none = 0
count_of (some n) = n

abbrev pub retry_of : Option Retry → Bool
retry_of none = false
retry_of (some r) = ltb 0 (count_of r.attempt_count) || truthy r.last_result

module _ (locale : String → String) (locale_time : ℕ → String) (now : ℕ) where
  -- `_celFmtTs`
  abbrev pub time_text : Option String → String
  time_text none = "—"
  time_text (some s) = if s === "" then "—" else locale s

  -- The rounded seconds up to an epoch in seconds; 0 where that is not later.
  abbrev pub secs_until : ℕ → ℕ
  secs_until epoch = (1000 * epoch + 500 - now) / 1000

  abbrev pub next_text : Option ℕ → String
  next_text none = "—"
  next_text (some epoch) =
      if epoch == 0
      then "—"
      else if ltb 0 (secs_until epoch)
      then template ("in " ∷ to_string (secs_until epoch) ∷ "s  (" ∷ locale_time epoch ∷ ")" ∷ [])
      else "Pending…"

  unfoldable pub status_texts : Modem → Option String → List (String × String)
  status_texts c uplink =
      ("present", if c.present then "Yes — SIM7600 detected" else "No modem detected")
      ∷ ("modem_hardware", hardware_text c)
      ∷ ("sim_status", sim_text c.sim_status)
      ∷ ("operator", or_text c.operator (if c.registered then "Unknown operator" else "—"))
      ∷ ("signal", signal_text c)
      ∷ ("registration_state", or_text c.registration_state "—")
      ∷ ("registered", if c.registered then "Yes" else "No")
      ∷ ("roaming", if c.roaming then "Yes (roaming)" else if c.registered then "No" else "—")
      ∷ ("access_tech", or_text c.access_technology "—")
      ∷ ("connected", if c.connected then "Yes" else "No")
      ∷ (
        "internet_ok",
        if c.internet_ok then "✓ Reachable" else if c.connected then "✗ No route" else "—",
      )
      ∷ ("address", or_text c.address "—")
      ∷ ("gateway", or_text c.gateway "—")
      ∷ ("dns", if length c.dns == 0 then "—" else joined ", " c.dns)
      ∷ ("active_uplink", uplink_text uplink)
      ∷ ("session_usage", usage_text c.session_rx_bytes c.session_tx_bytes)
      ∷ ("total_usage", usage_text c.rx_bytes c.tx_bytes)
      ∷ ("last_connect", time_text c.last_connect_timestamp)
      ∷ ("last_disconnect", time_text c.last_disconnect_timestamp)
      ∷ []

  unfoldable pub error_texts : Modem → List (String × String)
  error_texts c = if truthy c.last_error then ("last_error", or_text c.last_error "") ∷ [] else []

  abbrev pub retry_rows : Retry → List (String × String)
  retry_rows r =
      ("retry_count", template (to_string (count_of r.attempt_count) ∷ " attempt(s)" ∷ []))
      ∷ ("retry_last", time_text r.last_attempt_timestamp)
      ∷ ("retry_next", next_text r.next_attempt_epoch)
      ∷ (
        "retry_result",
        or_else (joined " — " (present_texts (r.last_result ∷ r.last_reason ∷ []))) "—",
      )
      ∷ []

  unfoldable pub retry_texts : Option Retry → List (String × String)
  retry_texts none = []
  retry_texts (some r) = if retry_of (some r) then retry_rows r else []

  unfoldable pub update_cellular_status : Option Modem → Option String → CelPage → CelPage
  unfolding status_texts error_texts retry_texts
  update_cellular_status none uplink p = record p {
    texts = set_all (map (λ k. (k, "—")) all_keys) p.texts;
  }
  update_cellular_status (some c) uplink p = record {
    texts = set_all (status_texts c uplink ++ error_texts c ++ retry_texts c.retry) p.texts;
    error_shown = truthy c.last_error;
    retry_shown = retry_of c.retry;
  }
