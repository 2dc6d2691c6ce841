-- ===== src/Forwarding/Toggles.antt =====
-- The switches of the profile form in web_console/static/js/app.js: the handlers that `fwToggle`
-- installs, and the port input's.
use gateway_hub.Prelude.{ℕ, ◌≡◌, refl, Bool, true, false, not, Option, some, if◌then◌else◌, arith}
use gateway_hub.Forwarding.Form.{Form}

pub data Event : Type 0 where
  enabled_clicked mqtt_tls_clicked https_tls_clicked mtls_clicked : Event
  port_typed : Option ℕ → Event

abbrev pub default_port : Bool → ℕ
default_port tls = if tls then 8883 else 1883

unfoldable pub step : Form → Event → Form
step f enabled_clicked = record f { enabled = not f.enabled }
step f mqtt_tls_clicked =
    let v = not f.mqtt_tls in
    record f {
      mqtt_tls = v;
      mqtt_port = if f.port_edited then f.mqtt_port else some (default_port v);
    }
step f https_tls_clicked =
    let v = not f.https_tls in record f { https_tls = v; mtls = if v then f.mtls else false }
step f mtls_clicked = record f { mtls = not f.mtls }
step f (port_typed v) = record f { mqtt_port = v; port_edited = true }

-- The mutual-TLS switch stands in the section that is shown while TLS is on.
abbrev pub CanHappen : Form → Event → Type 0
CanHappen f mtls_clicked = f.https_tls ≡ true
CanHappen f e = f.https_tls ≡ f.https_tls

-- A sequence of events, each of which can happen where it happens.
pub data Steps : Form → Form → Type 0 where
  done : {f : Form} → Steps f f
  next : {f g : Form} (e : Event) → CanHappen f e → Steps (step f e) g → Steps f g

-- A port that was not typed in is the default of the TLS switch.
abbrev pub FollowsTls : Form → Type 0
FollowsTls f = f.port_edited ≡ false → f.mqtt_port ≡ some (default_port f.mqtt_tls)

-- Mutual TLS is on only with TLS.
abbrev pub NeedsTls : Form → Type 0
NeedsTls f = f.mtls ≡ true → f.https_tls ≡ true

step-FollowsTls : (f : Form) (e : Event) → FollowsTls f → FollowsTls (step f e)
unfolding step
step-FollowsTls f enabled_clicked h = h
step-FollowsTls f mqtt_tls_clicked h = λ edited. rw edited refl
step-FollowsTls f https_tls_clicked h = h
step-FollowsTls f mtls_clicked h = h
step-FollowsTls f (port_typed v) h = λ edited. absurd (cc edited)

step-NeedsTls : (f : Form) (e : Event) → CanHappen f e → NeedsTls f → NeedsTls (step f e)
unfolding step
step-NeedsTls f enabled_clicked c h = h
step-NeedsTls f mqtt_tls_clicked c h = h
step-NeedsTls f https_tls_clicked c h = ground arith
step-NeedsTls f mtls_clicked c h = λ on. c
step-NeedsTls f (port_typed v) c h = h

-- However the switches are clicked and the port is typed in, a form whose port follows the MQTT TLS
-- switch and whose mutual TLS is on only with TLS stays so: the port is 8883 or 1883 by the switch
-- until it is typed in, and turning TLS off turns mutual TLS off.
pub switches_agree :
    (f g : Form) → Steps f g → FollowsTls f → NeedsTls f → FollowsTls g × NeedsTls g
switches_agree f _ done p m = (p, m)
switches_agree f g (next e c steps) p m =
    switches_agree (step f e) g steps (step-FollowsTls f e p) (step-NeedsTls f e c m)
