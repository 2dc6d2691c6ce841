-- ===== src/Notifications/Tests.antt =====
-- The notification settings at concrete channels.
use gateway_hub.Notifications.Kept.{collected, collect-render}
use gateway_hub.Prelude.Int.{pos, ℤ}
use gateway_hub.Connectivity.Fields.{trim, trim_start, trim_end, is_space}
use gateway_hub.Notifications.Page.{name_field, Page}
use gateway_hub.Notifications.Channels.{collect_channel, render_channel, Channel, Meta}
use gateway_hub.Notifications.Page
use gateway_hub.Prelude.{
  template, ◌===◌, refl, some, ◌≡◌, false, if◌then◌else◌, [], none, Option, true, ◌∷◌, List,
  to_string, String,
}

abbrev page_meta : Meta
page_meta = record {
  event_types = ("opened", "Opened") ∷ ("resolved", "Resolved") ∷ [];
  channel_types = "slack" ∷ "email" ∷ [];
  severities = "info" ∷ "warning" ∷ [];
  email_security = ("starttls", "") ∷ ("ssl", "") ∷ [];
}

abbrev mail : Channel
mail = record {
  id = "c1";
  name = "Email channel";
  kind = "email";
  enabled = true;
  url = none;
  routing_key = none;
  secret = none;
  events = "opened" ∷ [];
  min_severity = "warning";
  email = record {
    smtp_host = some "smtp.example.com";
    smtp_port = some (pos 587);
    security = some "starttls";
    username = some "ops";
    password = some "stored";
    from_address = some "gw@example.com";
    to_addresses = "ops@example.com" ∷ "oncall@example.com" ∷ [];
  };
}

abbrev read_number : String → Option ℤ
read_number s = if s === "587" then some (pos 587) else if s === "465" then some (pos 465) else none

abbrev mail_page : Page
mail_page = record {
  channels = mail ∷ [];
  rules = [];
  meta = page_meta;
  cards = render_channel page_meta mail ∷ [];
  rule_inputs = [];
  empty_hidden = true;
  message = record { text = ""; is_ok = false; is_error = false };
}

collect-render_example :
    collect_channel read_number (render_channel page_meta mail) mail ≡ collected page_meta mail
unfolding to_string trim trim_start trim_end is_space template
collect-render_example =
    collect-render read_number page_meta mail refl
      (refl, refl, refl, refl, ((refl, refl, refl), ((refl, refl, refl), tt)))

abbrev presses : List Page.Event
presses =
    Page.add_pressed
    ∷ Page.filled 1 name_field "Alerts"
    ∷ Page.ticked 0 "resolved" true
    ∷ Page.type_chosen 1 "email"
    ∷ Page.remove_pressed 0
    ∷ []
