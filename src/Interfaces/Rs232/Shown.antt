-- ===== src/Interfaces/Rs232/Shown.antt =====
-- What an RS232 port of the interfaces page in web_console/static/js/app.js shows and what it sends.
use gateway_hub.Interfaces.Values.{
  get-set_other, get-set_same, get-collect, last_of, read_some, first_some,
}
use gateway_hub.Interfaces.Rs232.{
  is_off, some, null, current_mode, analog_value, collect, show_content, set_key, press_mode,
  build_port, Value, enable, apply_port_state, Input, read_analog, mark_button, ℤ, ◌∷◌, apply_mode,
  Pane, Event, step, ModeButton, run,
}
use gateway_hub.Prelude.{
  ===-sym, inr, sym, eq_iff, ◌&&◌, inl, Bool-cases, or_text, false, refl, not, ◌∙◌, [], true,
  if◌then◌else◌, none, ap, includes, ◌===◌, lookup_in, ◌≡◌, map, All, Option, Bool, String, List,
}

-- Of the mode buttons and contents those of mode m are current and shown, and the badge, the dot,
-- the body and the note tell the switch.
abbrev pub IsShowing : String → Pane → Type 0
IsShowing m p =
    All (λ b. b.is_current ≡ (b.mode === m)) p.modes
    × All (λ c. c.1 ≡ (c.0 === m)) p.contents
    × (p.badge_active ≡ p.enabled)
    × (p.badge_text ≡ (if p.enabled then "Active" else "Idle"))
    × (p.dot_active ≡ p.enabled)
    × (p.body_shown ≡ p.enabled)
    × (p.note_shown ≡ not p.enabled)

-- The mode that was pressed last.
abbrev pub mode_after : String → List Event → String
mode_after m [] = m
mode_after m (enable on ∷ events) = mode_after m events
mode_after m (press_mode mode ∷ events) = mode_after mode events

abbrev pub mode_names : List ModeButton → List String
mode_names bs = map (λ b. b.mode) bs

marked :
    (m : String) (bs : List ModeButton)
    → All (λ b. b.is_current ≡ (b.mode === m)) (map (mark_button m) bs)
marked m [] = tt
marked m (b ∷ bs) = (refl, marked m bs)

shown :
    (m : String) (cs : List (String × Bool))
    → All (λ c. c.1 ≡ (c.0 === m)) (map (show_content m) cs)
shown m [] = tt
shown m (c ∷ cs) = (refl, shown m cs)

mode_names-mark :
    (m : String) (bs : List ModeButton) → mode_names (map (mark_button m) bs) ≡ mode_names bs
mode_names-mark m [] = refl
mode_names-mark m (b ∷ bs) = ap (b.mode ∷◌) (mode_names-mark m bs)

run-IsShowing :
    (p : Pane) (m : String) (events : List Event)
    → IsShowing m p
    → IsShowing (mode_after m events) (run p events)
unfolding run step apply_mode apply_port_state
run-IsShowing p m [] h = h
run-IsShowing p m (enable on ∷ events) h =
    run-IsShowing (step p (enable on)) m events (h.0, h.1, refl, refl, refl, refl, refl)
run-IsShowing p m (press_mode mode ∷ events) h =
    run-IsShowing (step p (press_mode mode)) mode events
      (marked mode p.modes, shown mode p.contents, h.2, h.3, h.4, h.5, h.6)

run-mode_names :
    (p : Pane) (events : List Event) → mode_names (run p events).modes ≡ mode_names p.modes
unfolding run step apply_mode apply_port_state
run-mode_names p [] = refl
run-mode_names p (enable on ∷ events) = run-mode_names (step p (enable on)) events
run-mode_names p (press_mode mode ∷ events) =
    run-mode_names (step p (press_mode mode)) events ∙ mode_names-mark mode p.modes

current_mode_lem :
    (m : String) (bs : List ModeButton)
    → All (λ b. b.is_current ≡ (b.mode === m)) bs
    → includes (mode_names bs) m ≡ true
    → current_mode bs ≡ some m
current_mode_lem m [] a h = absurd (cc h)
current_mode_lem m (b ∷ bs) a h = elim (Bool-cases (b.mode === m)) [
  | inl e ↦ rw (a.0, e) (ap some ((eq_iff b.mode m).0 e))
  | inr e ↦ rw (a.0, e) (current_mode_lem m bs a.1 (rw e at h))
]

module _ {F : Type 0} (zero_value : F) (parse_int : String → Option ℤ)
    (parse_float : String → Option F) where
  -- However a port's switch is turned and its modes are pressed, what is sent of it is what it shows:
  -- the mode pressed last, whose content alone is shown, and as enabled what its badge says.
  pub run-sent :
      (p : Pane) (m : String) (events : List Event)
      → IsShowing m p
      → includes (mode_names p.modes) (mode_after m events) ≡ true
      → (mode_after m events === "") ≡ false
      → let q = run p events in
        let sent = build_port zero_value parse_int parse_float q in
        (sent.mode ≡ mode_after m events)
        × All (λ c. c.1 ≡ (c.0 === sent.mode)) q.contents
        × (q.badge_active ≡ sent.enabled)
        × (q.badge_text ≡ (if sent.enabled then "Active" else "Idle"))
  unfolding build_port
  run-sent p m events h has filled =
      let q = run p events in
      let k = run-IsShowing p m events h in
      let last = mode_after m events in
      let e : or_text (current_mode q.modes) "sensor" ≡ last =
        rw (current_mode_lem last q.modes k.0 (rw (run-mode_names p events) has), filled) refl in
      (e, rw e k.1, k.2, k.3)

  first_some-none : (o : Option (Value F)) → first_some o none ≡ o
  first_some-none none = refl
  first_some-none (some x) = refl

  lookup-analog :
      (els : List (String × Input)) (key : String)
      → lookup_in key (collect (analog_value zero_value parse_int parse_float) els [])
        ≡ read_some (analog_value zero_value parse_int parse_float) key (last_of key els)
  lookup-analog els key =
      get-collect (analog_value zero_value parse_int parse_float) key els [] ∙ first_some-none _

  set_channel :
      (table : List (String × Value F)) (key : String)
      → lookup_in key (set_key "channel" null table)
        ≡ (if key === "channel" then some null else lookup_in key table)
  set_channel table key = elim (Bool-cases (key === "channel")) [
    | inl e ↦ rw (e, (eq_iff key "channel").0 e) (get-set_same "channel" null table)
    | inr e ↦ rw e (get-set_other key "channel" null table (rw (===-sym "channel" key) e))
  ]

  -- The analog output that is sent has no channel just when its state is "off"; each other setting,
  -- and the channel otherwise, is the value of the last input of its key.
  pub lookup-read_analog :
      (els : List (String × Input)) (key : String)
      → let value = λ (k : String).
        read_some (analog_value zero_value parse_int parse_float) k (last_of k els) in
        lookup_in key (read_analog zero_value parse_int parse_float els)
        ≡ (if is_off (value "state") && (key === "channel") then some null else value key)
  unfolding read_analog
  lookup-read_analog els key =
      let table = collect (analog_value zero_value parse_int parse_float) els [] in
      elim (Bool-cases (is_off (lookup_in "state" table))) [
        | inl e ↦
            rw (e, sym (lookup-analog els "state"), e, set_channel table key, lookup-analog els key)
              refl
        | inr e ↦ rw (e, sym (lookup-analog els "state"), e) (lookup-analog els key)
      ]
