-- ===== src/Forwarding/Status.antt =====
-- The live status of the profiles in web_console/static/js/app.js: the page's banner and cards,
-- `fwRefreshStatus`, and the overview's card of `refreshFwdStrip`. `grouped` is `toLocaleString` of a
-- number.
pub mod Agreement
mod Tests
use gateway_hub.Prelude.{
  true, leb, to_string, some, false, template, keep, ◌||◌, ◌+◌, [], ◌-◌, lookup_in, none, length,
  or_text, ltb, Option, ◌===◌, ◌==◌, ◌∷◌, Bool, String, List, if◌then◌else◌, ℕ,
}
use gateway_hub.Network.{Tone, active, standby, inactive}

-- A profile of the status answer; an MQTT one has a broker and a state, an HTTPS one a tunnel.
pub record Item : Type 0 where
  pub is_mqtt : Bool
  pub state : String
  pub tunnel_alive : Bool
  pub profile_name : Option String
  pub last_error : Option String
  pub last_status_code : Option ℕ
  pub count : ℕ
  pub pending : ℕ
  pub replayed : ℕ
  pub dropped : ℕ

pub data StateClass : Type 0 where
  is_ok is_warn is_err : StateClass

abbrev state_names : List (String × String)
state_names =
    ("connected", "Connected")
    ∷ ("connecting", "Reconnecting…")
    ∷ ("error", "Connection error")
    ∷ ("stopped", "Stopped")
    ∷ []

-- `_fwStateLabel`
unfoldable pub state_label : Item → String
state_label i =
    if i.is_mqtt
    then or_text (lookup_in i.state state_names) i.state
    else if i.tunnel_alive
    then "Connected"
    else "Connection down"

-- `_fwStateCls`
unfoldable pub state_class : Item → StateClass
state_class i =
    if i.is_mqtt
    then if i.state === "connected"
      then is_ok
      else if i.state === "connecting"
      then is_warn
      else is_err
    else if i.tunnel_alive
    then is_ok
    else is_err

-- `items.reduce((s, x) => s + field(x), 0)`
abbrev pub total : (Item → ℕ) → List Item → ℕ
total field [] = 0
total field (i ∷ items) = field i + total field items

-- `n !== 1 ? "s" : ""`, and `n > 1 ? "s" : ""`
abbrev pub s_unless_one : ℕ → String
s_unless_one n = if n == 1 then "" else "s"

abbrev pub s_above_one : ℕ → String
s_above_one n = if ltb 1 n then "s" else ""

pub record Banner : Type 0 where
  pub hidden : Bool
  pub title : String
  pub detail : String
  pub pending : String
  pub recovered : String
  pub dropped : String

pub record Line : Type 0 where
  pub cls : StateClass
  pub text : String
  pub has_detail : Bool

-- The overview's card.
pub record FwdCard : Type 0 where
  pub state : String
  pub summary : String
  pub tone : Tone

-- `("broker" in x) ? x.state === "connected" : x.tunnel_alive === true`
abbrev pub delivers : Item → Bool
delivers i = if i.is_mqtt then i.state === "connected" else i.tunnel_alive

-- `fwdTone`, by the numbers of profiles, of those that deliver, of readings buffered and dropped.
unfoldable pub fwd_tone : ℕ → ℕ → ℕ → ℕ → Tone
fwd_tone all on buffered dropped =
    if ltb 0 dropped
    then inactive
    else if ltb 0 buffered
    then standby
    else if on == all
    then active
    else if all - on == all
    then inactive
    else standby

module _ (grouped : ℕ → String) where
  -- The banner; a hidden one keeps its texts.
  unfoldable pub pipeline_alert : List Item → Banner → Banner
  pipeline_alert items b =
      let pending = total (λ i. i.pending) items in
      let replayed = total (λ i. i.replayed) items in
      let dropped = total (λ i. i.dropped) items in
      if ltb 0 pending || ltb 0 dropped
      then record {
        hidden = false;
        title =
            if ltb 0 dropped
            then template (
                to_string dropped
                ∷ " message"
                ∷ s_above_one dropped
                ∷ " evicted from buffer — local buffer was full"
                ∷ [])
            else template (
                to_string pending
                ∷ " message"
                ∷ s_above_one pending
                ∷ " saved locally, waiting for delivery"
                ∷ []);
        detail =
            if ltb 0 dropped
            then "The local buffer reached capacity and oldest messages were removed to make room for new data. Connection issues may be preventing delivery — check profile status below."
            else template (
                "Messages are stored safely in the local buffer and will be sent automatically when the connection recovers."
                ∷ (if ltb 0 replayed
                    then template
                        (" " ∷ to_string replayed ∷ " already recovered and delivered." ∷ [])
                    else "")
                ∷ []);
        pending = grouped pending;
        recovered = grouped replayed;
        dropped = grouped dropped;
      }
      else record b { hidden = true }

  -- The line of a card on its buffer.
  unfoldable pub buffer_line : Item → Line
  buffer_line i = record {
    cls = if ltb 0 i.dropped then is_err else if ltb 0 i.pending then is_warn else is_ok;
    text =
        if ltb 0 i.dropped
        then template (
            grouped i.dropped
            ∷ " message"
            ∷ s_unless_one i.dropped
            ∷ " evicted — local buffer was full"
            ∷ [])
        else if ltb 0 i.pending
        then template (
            grouped i.pending
            ∷ " message"
            ∷ s_unless_one i.pending
            ∷ " waiting to send — will deliver automatically once connected"
            ∷ [])
        else if ltb 0 i.replayed
        then template ("Buffer healthy · " ∷ grouped i.replayed ∷ " recovered this session" ∷ [])
        else "Buffer healthy";
    has_detail = ltb 0 i.pending || ltb 0 i.dropped;
  }

  -- The reason shown on a card; the empty text shows none.
  unfoldable pub fail_reason : Item → String
  fail_reason i = or_text i.last_error (elim (if i.is_mqtt then none else i.last_status_code) [
    | none ↦ ""
    | some c ↦
        if leb 400 c
        then template (
            "Server rejected with HTTP "
            ∷ to_string c
            ∷ " — check endpoint URL and authentication."
            ∷ [])
        else ""
  ])

  -- The overview's card for a list that is not empty.
  unfoldable pub fwd_card : List Item → FwdCard
  unfolding fwd_tone
  fwd_card items =
      let all = length items in
      let on = length (keep delivers items) in
      let down = all - on in
      let buffered = total (λ i. i.pending) items in
      record {
        state =
            if ltb 0 buffered
            then template ("Active — " ∷ grouped buffered ∷ " buffered" ∷ [])
            else if on == all
            then "Active"
            else if ltb 0 on
            then template (to_string on ∷ "/" ∷ to_string all ∷ " active" ∷ [])
            else "Error";
        summary =
            if down == 0
            then template
                ("All " ∷ to_string all ∷ " profile" ∷ s_above_one all ∷ " connected" ∷ [])
            else template (to_string down ∷ " profile" ∷ s_above_one down ∷ " down" ∷ []);
        tone = fwd_tone all on buffered (total (λ i. i.dropped) items);
      }
