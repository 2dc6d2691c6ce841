-- ===== src/Interfaces/Tests.antt =====
-- The interfaces page at concrete states.
use gateway_hub.Interfaces.Rs232.Shown.{run-sent, mode_after}
use gateway_hub.Interfaces.ModbusTcp.Sent.{build_mtcp_payload-run, IsFilled, ids_from}
use gateway_hub.Interfaces.Values.{words}
use gateway_hub.Prelude.Int.{pos, ℤ}
use gateway_hub.Interfaces.Rs232.{build_port, ModeButton, Pane}
use gateway_hub.Interfaces.ModbusTcp.{
  delete, add_register, enable, ip_field, typed, add, Event, build_mtcp_payload, Panel, run,
}
use gateway_hub.Interfaces.ModbusTcp.Consistent.{IsConsistent}
use gateway_hub.Interfaces.Rs232
use gateway_hub.Prelude.{
  All, ◌≡◌, map, ◌===◌, if◌then◌else◌, refl, ◌≤◌, some, false, none, length, ◌∷◌, arith, to_string,
  [], Option, true, Bool, template, List, String, ℕ,
}

abbrev no_conns : Panel
no_conns = record { conns = []; count = "0 / 10"; add_disabled = false; empty_line = some true }

no_conns-IsConsistent : IsConsistent no_conns
unfolding template to_string
no_conns-IsConsistent = (omega arith, refl, λ h. absurd (cc h), refl, tt)

abbrev presses : List Event
presses = add ∷ typed 0 ip_field "10.0.0.5" ∷ add ∷ enable 1 true ∷ add_register 1 ∷ delete 0 ∷ []

abbrev ten_parse : String → Option ℤ
ten_parse s = if s === "502" then some (pos 502) else none

abbrev one_parse : String → Option ℕ
one_parse s = none

build_mtcp_payload-run_example :
    let q = run no_conns presses in
    let sent = build_mtcp_payload 1 ten_parse one_parse q in
    (length sent.connections ≤ sent.max_connections)
    × (map (λ c. c.id) sent.connections ≡ ids_from 1 (length q.conns))
    × All IsFilled sent.connections
build_mtcp_payload-run_example =
    build_mtcp_payload-run 1 ten_parse one_parse no_conns presses no_conns-IsConsistent

abbrev button : String → Bool → ModeButton
button mode current = record { mode = mode; is_current = current; pressed = current }

abbrev sensor_port : Pane
sensor_port = record {
  enabled = true;
  serial = ("baud_rate", "9600") ∷ [];
  polling = [];
  driver = [];
  alarms = [];
  analog = ("state", words "off") ∷ ("channel", words "1") ∷ [];
  sniffer = [];
  capture = [];
  modes = button "sensor" true ∷ button "sniffer" false ∷ [];
  contents = ("sensor", true) ∷ ("sniffer", false) ∷ [];
  body_shown = true;
  note_shown = false;
  badge_active = true;
  badge_text = "Active";
  dot_active = true;
}

abbrev port_presses : List Rs232.Event
port_presses = Rs232.press_mode "sniffer" ∷ Rs232.enable false ∷ []

run-sent_example :
    let q = Rs232.run sensor_port port_presses in
    let sent = build_port 0 ten_parse one_parse q in
    (sent.mode ≡ mode_after "sensor" port_presses)
    × All (λ c. c.1 ≡ (c.0 === sent.mode)) q.contents
    × (q.badge_active ≡ sent.enabled)
    × (q.badge_text ≡ (if sent.enabled then "Active" else "Idle"))
run-sent_example =
    run-sent 0 ten_parse one_parse sensor_port "sensor" port_presses
      ((refl, (refl, tt)), (refl, (refl, tt)), refl, refl, refl, refl, refl) refl refl
