-- ===== src/Interfaces/Rs232.antt =====
-- The RS232 ports of the interfaces page in web_console/static/js/app.js: a port's switch and modes,
-- and `buildPayload`.
pub mod Shown
use gateway_hub.Interfaces.Registers.{float_or}
use gateway_hub.Interfaces.Values.{
  words, null, int_value, serial_value, text, number, decimal, flag, collect, checkbox, Input,
  Value,
}
use gateway_hub.Prelude.Int.{ℤ}
use gateway_hub.Prelude.{
  set_key, false, lookup_in, some, or_text, if◌then◌else◌, not, ◌∷◌, [], none, ◌===◌, map, List,
  Option, String, Bool, ℕ,
}

pub record ModeButton : Type 0 where
  pub mode : String
  pub is_current : Bool
  pub pressed : Bool

pub record AlarmInput : Type 0 where
  pub channel : String
  pub field : String
  pub input : Input

-- The inputs of a port, its mode buttons and contents, and what its switch shows.
pub record Pane : Type 0 where
  pub enabled : Bool
  pub serial : List (String × String)
  pub polling : List (String × Bool)
  pub driver : List (String × Bool)
  pub alarms : List AlarmInput
  pub analog : List (String × Input)
  pub sniffer : List (String × Input)
  pub capture : List (String × Input)
  pub modes : List ModeButton
  -- The mode of each content, and whether it is shown.
  pub contents : List (String × Bool)
  pub body_shown : Bool
  pub note_shown : Bool
  pub badge_active : Bool
  pub badge_text : String
  pub dot_active : Bool

unfoldable pub apply_port_state : Bool → Pane → Pane
apply_port_state on p = record p {
  body_shown = on;
  note_shown = not on;
  badge_active = on;
  badge_text = if on then "Active" else "Idle";
  dot_active = on;
}

abbrev pub mark_button : String → ModeButton → ModeButton
mark_button mode b = record b { is_current = b.mode === mode; pressed = b.mode === mode }

abbrev pub show_content : String → String × Bool → String × Bool
show_content mode (m, shown) = (m, m === mode)

unfoldable pub apply_mode : String → Pane → Pane
apply_mode mode p = record p {
  modes = map (mark_button mode) p.modes;
  contents = map (show_content mode) p.contents;
}

-- The switch is turned, or a mode is pressed.
pub data Event : Type 0 where
  enable : Bool → Event
  press_mode : String → Event

unfoldable pub step : Pane → Event → Pane
unfolding apply_port_state apply_mode
step p (enable on) = apply_port_state on (record p { enabled = on })
step p (press_mode mode) = apply_mode mode p

unfoldable pub run : Pane → List Event → Pane
unfolding step
run p [] = p
run p (e ∷ events) = run (step p e) events

-- `querySelector("[data-rs232-mode].is-current")`, and its mode, or `sensor`.
abbrev pub current_mode : List ModeButton → Option String
current_mode [] = none
current_mode (b ∷ bs) = if b.is_current then some b.mode else current_mode bs

pub record Port (F : Type 0) : Type 0 where
  pub enabled : Bool
  pub mode : String
  pub serial : List (String × Value F)
  pub sensor : String
  pub polling : List (String × Value F)
  pub driver : List (String × Value F)
  pub alarms : List (String × List (String × Value F))
  pub analog_output : List (String × Value F)
  pub sniffer : List (String × Value F)
  pub capture : List (String × Value F)

pub record Payload (F : Type 0) : Type 0 where
  pub version : ℕ
  pub port_0 : Option (Port F)
  pub port_1 : Option (Port F)

abbrev pub object_or {ℓ} : {A : Type ℓ} → Option (List A) → List A
object_or none = []
object_or (some table) = table

abbrev pub flag_value : {F : Type 0} → String → Bool → Value F
flag_value key b = flag b

-- `analog.state === "off"`
abbrev pub is_off : {F : Type 0} → Option (Value F) → Bool
is_off (some (text s)) = s === "off"
is_off v = false

module _ {F : Type 0} (zero_value : F) (parse_int : String → Option ℤ)
    (parse_float : String → Option F) where
  -- `parseFloat(s) || 0`
  abbrev pub float_value : String → Value F
  float_value s = decimal (float_or zero_value (parse_float s))

  abbrev pub alarm_value : Input → Value F
  alarm_value (checkbox b s) = flag b
  alarm_value (number s) = float_value s
  alarm_value (words s) = text s

  abbrev pub collect_alarms :
      List AlarmInput
      → List (String × List (String × Value F))
      → List (String × List (String × Value F))
  collect_alarms [] table = table
  collect_alarms (a ∷ rest) table = collect_alarms rest (
      set_key a.channel
        (set_key a.field (alarm_value a.input) (object_or (lookup_in a.channel table))) table)

  abbrev pub analog_value : String → Input → Value F
  analog_value key (checkbox b s) = text s
  analog_value key (number s) = float_value s
  analog_value key (words s) = text s

  abbrev pub sniffer_value : String → Input → Value F
  sniffer_value key (checkbox b s) = flag b
  sniffer_value key (number s) = int_value parse_int s
  sniffer_value key (words s) = text s

  abbrev pub capture_value : String → Input → Value F
  capture_value key (checkbox b s) = flag b
  capture_value key (number s) = int_value parse_int s
  capture_value key (words s) = int_value parse_int s

  unfoldable pub read_analog : List (String × Input) → List (String × Value F)
  read_analog els =
      let analog = collect analog_value els [] in
      if is_off (lookup_in "state" analog) then set_key "channel" null analog else analog

  -- No key of the sniffer's settings is `capture`, which stands in the same object.
  unfoldable pub build_port : Pane → Port F
  unfolding read_analog
  build_port p = record {
    enabled = p.enabled;
    mode = or_text (current_mode p.modes) "sensor";
    serial = collect (serial_value parse_int) p.serial [];
    sensor = "dustrak";
    polling = collect flag_value p.polling [];
    driver = collect flag_value p.driver [];
    alarms = collect_alarms p.alarms [];
    analog_output = read_analog p.analog;
    sniffer = collect sniffer_value p.sniffer [];
    capture = collect capture_value p.capture (("format", text "jsonl") ∷ []);
  }

  abbrev pub build_some : Option Pane → Option (Port F)
  build_some none = none
  build_some (some p) = some (build_port p)

  abbrev pub build_payload : Option Pane → Option Pane → Payload F
  build_payload pane_0 pane_1 = record {
    version = 1;
    port_0 = build_some pane_0;
    port_1 = build_some pane_1;
  }
