-- ===== src/Access.antt =====
-- The access form of the system page in web_console/static/js/app.js: the submission of new
-- credentials. The form, its message, its button and its two username fields are on the page.
use gateway_hub.Prelude.{
  or_text, none, refl, List, ◌∷◌, ◌&&◌, if◌then◌else◌, some, false, Option, true, String, ◌≡◌, Bool,
}
use gateway_hub.Network.{is_true}
use gateway_hub.Interfaces.Save.{toggled, both_ok}

pub record Credentials : Type 0 where
  pub new_username : String
  pub current_password : String
  pub new_password : String
  pub confirm_password : String

pub record AccessForm : Type 0 where
  pub current_username : String
  pub fields : Credentials
  pub message : String
  pub is_success : Bool
  pub disabled : Bool
  pub text : String
  -- What was sent, the last first.
  pub sent : List Credentials

-- The request or the parser throws an error with its text or something else, or the answer is there
-- with the response's own `ok`, its message, and its field `ok`, which may be missing.
pub data AccessReply : Type 0 where
  thrown : Option String → AccessReply
  replied : Bool → Option String → Option Bool → AccessReply

abbrev pub error_text : Option String → String
error_text none = "Could not update credentials."
error_text (some e) = e

abbrev pub begin : AccessForm → AccessForm
begin f = record f { message = ""; disabled = true; text = "Saving..."; sent = f.fields ∷ f.sent }

-- `accessForm.reset()` and what follows it.
abbrev pub reset : String → AccessForm → AccessForm
reset username f = record f {
  current_username = username;
  fields = record {
    new_username = username;
    current_password = "";
    new_password = "";
    confirm_password = "";
  };
}

abbrev pub receive : AccessReply → AccessForm → AccessForm
receive (thrown e) f = record f { message = error_text e; is_success = false }
receive (replied res_ok message ok) f =
    if res_ok && is_true ok
    then reset f.fields.new_username (record f {
      message = or_text message "Saved.";
      is_success = toggled (both_ok res_ok ok) f.is_success;
    })
    else record f { message = or_text message "Could not update credentials."; is_success = false }

unfoldable pub submit : AccessReply → AccessForm → AccessForm
submit reply f = record (receive reply (begin f)) { disabled = false; text = "Save credentials" }

abbrev pub accepts : AccessReply → Bool
accepts (thrown e) = false
accepts (replied res_ok message ok) = res_ok && is_true ok

abbrev kept_or_reset : Bool → AccessForm → AccessForm
kept_or_reset true f = reset f.fields.new_username f
kept_or_reset false f = f

-- A submission sends the fields once and frees the button; its message has the colour of success,
-- and the passwords are emptied, just when the answer is ok in both ways; otherwise what is filled
-- in stays.
pub submit_lem :
    (reply : AccessReply) (f : AccessForm)
    → let q = submit reply f in
      (q.sent ≡ f.fields ∷ f.sent)
      × (q.disabled ≡ false)
      × (q.is_success ≡ accepts reply)
      × (q.fields ≡ (kept_or_reset (accepts reply) f).fields)
      × (q.current_username ≡ (kept_or_reset (accepts reply) f).current_username)
unfolding submit
submit_lem (thrown e) f = (refl, refl, refl, refl, refl)
submit_lem (replied true message none) f = (refl, refl, refl, refl, refl)
submit_lem (replied true message (some true)) f = (refl, refl, refl, refl, refl)
submit_lem (replied true message (some false)) f = (refl, refl, refl, refl, refl)
submit_lem (replied false message ok) f = (refl, refl, refl, refl, refl)
