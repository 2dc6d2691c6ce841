-- ===== src/Connectivity/Action.antt =====
-- `runNetworkAction` of web_console/static/js/app.js: the submission of the network form. The form,
-- its message and its two buttons are on the page, and what is run on success does not throw.
use gateway_hub.Prelude.{
  ℕ, ◌+◌, ◌≡◌, refl, Bool, true, false, ◌&&◌, Option, none, some, String, ◌===◌, or_text,
  if◌then◌else◌, arith,
}

pub data Which : Type 0 where
  save save_apply : Which

pub record Button : Type 0 where
  pub disabled : Bool
  pub text : String

pub record Panel : Type 0 where
  pub message : String
  pub is_success : Bool
  pub save_button : Button
  pub apply_button : Button
  -- The requests sent, the refreshes of the runtime state, the runs of `afterSuccess`.
  pub posted : ℕ
  pub refreshed : ℕ
  pub succeeded : ℕ

-- The parsed answer: `errors[0].message` of a list that is not empty, and the two other texts.
pub record Answer : Type 0 where
  pub ok : Bool
  pub first_error : Option String
  pub message : Option String
  pub apply_status : Option String

-- The request, or the parser, throws an error with its text or something else; or the answer is
-- there, with the response's own `ok`.
pub data Reply : Type 0 where
  thrown : Option String → Reply
  replied : Bool → Answer → Reply

abbrev pub message_of : Answer → String
message_of a = or_text a.first_error (or_text a.message (or_text a.apply_status "Saved."))

abbrev set_text : Which → String → Panel → Panel
set_text save t p = record p {
  save_button = record { disabled = p.save_button.disabled; text = t };
}
set_text save_apply t p = record p {
  apply_button = record { disabled = p.apply_button.disabled; text = t };
}

-- Up to the request.
unfoldable pub begin : Which → String → Panel → Panel
begin which busy p = set_text which busy (record p {
  message = "";
  is_success = false;
  save_button = record { disabled = true; text = p.save_button.text };
  apply_button = record { disabled = true; text = p.apply_button.text };
  posted = p.posted + 1;
})

-- The `try` and `catch` around the reply.
unfoldable pub receive : Reply → Panel → Panel
receive (thrown none) p = record p {
  message = "Could not save network settings.";
  is_success = false;
}
receive (thrown (some text)) p = record p { message = text; is_success = false }
receive (replied ok a) p =
    let shown = record p {
      message = message_of a;
      is_success = ok && a.ok;
      refreshed = p.refreshed + 1;
    } in
    if ok && a.ok
    then record shown { succeeded = p.succeeded + 1 }
    else record shown { message = message_of a; is_success = false }

-- The `finally` block.
unfoldable pub finish : Which → String → Panel → Panel
finish which idle p = set_text which idle (record p {
  save_button = record { disabled = false; text = "Save" };
  apply_button = record { disabled = false; text = "Save and Apply" };
})

-- `invalid` is the text of `validateNetworkPayload`, empty for a payload that may be sent.
unfoldable pub run_network_action : Which → String → String → String → Reply → Panel → Panel
unfolding begin receive finish
run_network_action which busy idle invalid reply p =
    if invalid === ""
    then finish which idle (receive reply (begin which busy p))
    else record p { message = invalid; is_success = false }

abbrev pub accepted : Reply → Bool
accepted (thrown t) = false
accepted (replied ok a) = ok && a.ok

-- A payload that is valid is sent once; while it is on its way both buttons are disabled, and in
-- the end both are enabled, whatever comes back. The message is marked as a success, and what
-- follows a success is run, exactly when the response and its body say ok.
pub valid_action :
    (which : Which) (busy idle : String) (reply : Reply) (p : Panel)
    → let q = run_network_action which busy idle "" reply p in
      ((begin which busy p).save_button.disabled ≡ true)
      × ((begin which busy p).apply_button.disabled ≡ true)
      × (q.save_button.disabled ≡ false)
      × (q.apply_button.disabled ≡ false)
      × (q.posted ≡ p.posted + 1)
      × (q.is_success ≡ accepted reply)
      × (q.succeeded ≡ (if accepted reply then p.succeeded + 1 else p.succeeded))
unfolding run_network_action
valid_action save busy idle reply p =
    (refl, refl, refl, refl, ground arith, ground arith, ground arith)
valid_action save_apply busy idle reply p =
    (refl, refl, refl, refl, ground arith, ground arith, ground arith)

-- A payload that fails validation is not sent: the message says why, without the mark of a
-- success, and the buttons, the runtime state and what follows a success are left alone.
pub invalid_action :
    (which : Which) (busy idle invalid : String) (reply : Reply) (p : Panel)
    → (invalid === "") ≡ false
    → run_network_action which busy idle invalid reply p
      ≡ record p { message = invalid; is_success = false }
unfolding run_network_action
invalid_action which busy idle invalid reply p h = rw h
