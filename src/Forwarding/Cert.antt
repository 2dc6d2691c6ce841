-- ===== src/Forwarding/Cert.antt =====
-- `fwInitCertWidget` of web_console/static/js/app.js: one certificate field, whose elements are all
-- on the page.
use mathlib.Core.Option.{some-injective}
use gateway_hub.Prelude.{
  ◌∙◌, sym, not, ◌≡◌, ◌≢◌, ◌↔◌, refl, Bool, true, false, Option, none, some, String, List, [], ◌∷◌,
  ◌===◌, if◌then◌else◌, arith, eq_iff, Bool-cases, inl, inr,
}
use gateway_hub.Connectivity.Fields.{trim}

pub data WidgetState : Type 0 where
  empty server new cleared : WidgetState

-- The texts of the status line.
pub data StatusText : Type 0 where
  on_device : StatusText
  uploaded : String → StatusText
  to_be_removed : StatusText
  no_file : StatusText

pub record Widget : Type 0 where
  pub state : WidgetState
  pub textarea : String
  pub status : StatusText
  pub is_loaded : Bool
  pub clear_hidden : Bool

abbrev show_status : StatusText → Bool → Bool → Widget → Widget
show_status t loaded hidden w = record w { status = t; is_loaded = loaded; clear_hidden = hidden }

-- `setStatus(filename)`
unfoldable pub set_status : Option String → Widget → Widget
set_status filename w = elim w.state [
  | server ↦ show_status on_device true false w
  | new ↦ elim filename [
    | some name ↦
        if name === ""
        then show_status no_file false true w
        else show_status (uploaded name) true false w
    | none ↦ show_status no_file false true w
  ]
  | cleared ↦ show_status to_be_removed false true w
  | empty ↦ show_status no_file false true w
]

-- What happens to a widget: a profile is loaded into the form, a file has been read, or the field
-- is cleared.
pub data Event : Type 0 where
  set_loaded : Bool → Event
  file_read : String → String → Event
  clear : Event

unfoldable pub step : Widget → Event → Widget
unfolding set_status
step w (set_loaded loaded) =
    set_status none (record w { state = if loaded then server else empty; textarea = "" })
step w (file_read name content) =
    set_status (some name) (record w { state = new; textarea = content })
step w clear = set_status none (record w { state = cleared; textarea = "" })

unfoldable pub run : Widget → List Event → Widget
unfolding step
run w [] = w
run w (e ∷ events) = run (step w e) events

-- `getValue()`: none keeps what the device has, the empty text deletes it, another text replaces it.
unfoldable pub get_value : Widget → Option String
get_value w = elim w.state [
  | server ↦ none
  | cleared ↦ some ""
  | new ↦ (let text = trim w.textarea in if text === "" then none else some text)
  | empty ↦ none
]

-- What an event asks to be done with the certificate of the device, by itself.
abbrev pub wanted : Event → Option String
wanted (set_loaded loaded) = none
wanted (file_read name content) = let text = trim content in if text === "" then none else some text
wanted clear = some ""

pub step-wanted : (w : Widget) (e : Event) → get_value (step w e) ≡ wanted e
unfolding step get_value
step-wanted w (set_loaded true) = refl
step-wanted w (set_loaded false) = refl
step-wanted w (file_read name content) = ground arith
step-wanted w clear = refl

abbrev pub last_event : Event → List Event → Event
last_event e [] = e
last_event e (f ∷ events) = last_event f events

-- However often the field was loaded, filled and cleared, what is saved is what the last of these
-- asks for: nothing, unless it was a clearing or a file with some text.
pub get_value-run :
    (w : Widget) (e : Event) (events : List Event)
    → get_value (run w (e ∷ events)) ≡ wanted (last_event e events)
unfolding run
get_value-run w e [] = step-wanted w e
get_value-run w e (f ∷ events) = get_value-run (step w e) f events

wanted_delete : (name content : String) → wanted (file_read name content) ≢ some ""
wanted_delete name content e = elim (Bool-cases (trim content === "")) [
  | inl h ↦ cc (rw h at e)
  | inr h ↦ cc (sym h ∙ (eq_iff (trim content) "").1 (some-injective _ _ (rw h at e)))
]

status-step :
    (w : Widget) (e : Event)
    → (((step w e).status ≡ to_be_removed) ↔ (get_value (step w e) ≡ some ""))
      × ((step w e).clear_hidden ≡ not (step w e).is_loaded)
status-step w (set_loaded true) = unfold step get_value in ground arith
status-step w (set_loaded false) = unfold step get_value in ground arith
status-step w clear = unfold step get_value in ground arith
status-step w (file_read name content) = (
  (
    (λ h. unfold step get_value in ground arith),
    (λ h. absurd (wanted_delete name content (sym (step-wanted w (file_read name content)) ∙ h))),
  ),
  unfold step get_value in ground arith,
)

-- The status line says "Will be removed on save" exactly when the save deletes the certificate,
-- and the button that clears the field is shown exactly with a line that names a certificate.
pub status-run :
    (w : Widget) (e : Event) (events : List Event)
    → (((run w (e ∷ events)).status ≡ to_be_removed) ↔ (get_value (run w (e ∷ events)) ≡ some ""))
      × ((run w (e ∷ events)).clear_hidden ≡ not (run w (e ∷ events)).is_loaded)
unfolding run
status-run w e [] = status-step w e
status-run w e (f ∷ events) = status-run (step w e) f events
