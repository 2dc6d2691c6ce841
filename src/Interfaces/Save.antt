-- ===== src/Interfaces/Save.antt =====
-- The three save buttons of the interfaces page in web_console/static/js/app.js, which differ in
-- their address and in their text, `label`.
use gateway_hub.Prelude.{
  ◌&&◌, refl, none, if◌then◌else◌, not, ◌≡◌, some, true, or_text, Option, false, Bool, String,
}

pub record Saver : Type 0 where
  pub disabled : Bool
  pub text : String
  pub message : String
  pub is_success : Bool

-- What the request brings back: it or the parser throws, or the answer is there with the response's
-- own `ok`, the answer's message, and its field `ok`, which may be missing.
pub data Reply : Type 0 where
  thrown : Reply
  replied : Bool → Option String → Option Bool → Reply

-- `classList.toggle(name, force)`: without a force, it turns over what is there.
abbrev pub toggled : Option Bool → Bool → Bool
toggled none now = not now
toggled (some force) now = force

-- `response.ok && data.ok`
abbrev pub both_ok : Bool → Option Bool → Option Bool
both_ok true ok = ok
both_ok false ok = some false

abbrev pub saving : Saver → Saver
saving s = record s { message = ""; is_success = false; disabled = true; text = "Saving…" }

abbrev pub receive : Reply → Saver → Saver
receive thrown s = record s { message = "Could not reach the gateway." }
receive (replied res_ok message ok) s = record s {
  message = or_text message (if res_ok then "Saved." else "Save failed.");
  is_success = toggled (both_ok res_ok ok) s.is_success;
}

unfoldable pub save : String → Reply → Saver → Saver
save label reply s = record (receive reply (saving s)) { disabled = false; text = label }

-- Whether a reply tells of success, and the text that a reply without a text is given.
abbrev pub succeeds : Reply → Bool
succeeds thrown = false
succeeds (replied res_ok message none) = res_ok
succeeds (replied res_ok message (some ok)) = res_ok && ok

abbrev pub HasText : Reply → String → Type 0
HasText thrown t = t ≡ "Could not reach the gateway."
HasText (replied true message ok) t = t ≡ or_text message "Saved."
HasText (replied false message ok) t = t ≡ or_text message "Save failed."

-- Whatever the reply is and whatever was shown before, a save ends with the button as it was before
-- any press, a message of the reply, and the colour of success exactly for an answer with an `ok`
-- status whose own `ok` is true or is missing.
pub save_lem :
    (label : String) (reply : Reply) (s : Saver)
    → let q = save label reply s in
      (q.disabled ≡ false)
      × (q.text ≡ label)
      × HasText reply q.message
      × (q.is_success ≡ succeeds reply)
unfolding save
save_lem label thrown s = (refl, refl, refl, refl)
save_lem label (replied true message none) s = (refl, refl, refl, refl)
save_lem label (replied true message (some ok)) s = (refl, refl, refl, refl)
save_lem label (replied false message none) s = (refl, refl, refl, refl)
save_lem label (replied false message (some ok)) s = (refl, refl, refl, refl)
