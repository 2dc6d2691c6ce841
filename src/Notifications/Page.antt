-- ===== src/Notifications/Page.antt =====
-- The page of channels: `ntRender`, `ntCollect`, `ntBind`, `ntLoad`, the add and save buttons of
-- web_console/static/js/app.js. The card at a position shows the channel at that position.
pub mod Cards
pub mod Changes
use gateway_hub.Notifications.Channels.{
  default_name, moved_port, collect_channel, Card, Channel, Chip, EmailCard, render_channel, Meta,
}
use gateway_hub.Prelude.{
  or_text, keys_of, set_key, ◌===◌, false, length, none, ltb, some, [], ◌++◌, change_at, true,
  template, remove_at, ◌∷◌, get_elem?, if◌then◌else◌, Option, map, not, List, Bool, String, ℕ,
}
use gateway_hub.Prelude.Int.{pos, nonzero_or, ℤ}

pub record Message : Type 0 where
  pub text : String
  pub is_ok : Bool
  pub is_error : Bool

pub record Page : Type 0 where
  pub channels : List Channel
  pub rules : List (String × ℤ)
  pub meta : Meta
  pub cards : List Card
  -- The inputs of the rules, by their rule.
  pub rule_inputs : List (String × String)
  pub empty_hidden : Bool
  pub message : Message

unfoldable pub render : Page → Page
unfolding render_channel
render p = record p {
  cards = map (render_channel p.meta) p.channels;
  empty_hidden = ltb 0 (length p.channels);
}

-- `ntSetMessage`
abbrev pub set_message : String → Bool → Page → Page
set_message text ok p = record p { message = record { text = text; is_ok = ok; is_error = not ok } }

-- The parsed answers; a configuration of an answer is its channels and its rules.
pub data SaveReply : Type 0 where
  save_failed : String → SaveReply
  saved : List Channel → List (String × ℤ) → SaveReply
  not_saved : Option String → SaveReply

pub data TestReply : Type 0 where
  test_failed : String → TestReply
  tested : Bool → Option String → TestReply

pub data CardField : Type 0 where
  name_field url_field key_field secret_field severity_field : CardField
  host_field port_field user_field password_field from_field to_field : CardField

abbrev pub fill_some : String → Option String → Option String
fill_some s none = none
fill_some s (some old) = some s

abbrev pub change_email : (EmailCard → EmailCard) → Card → Card
change_email f k = record k { email = elim k.email [ none ↦ none | some e ↦ some (f e) ] }

-- What is typed into an input that is on the card.
unfoldable pub fill : CardField → String → Card → Card
fill name_field s k = record k { name = s }
fill url_field s k = record k { url = fill_some s k.url }
fill key_field s k = record k { routing_key = fill_some s k.routing_key }
fill secret_field s k = record k { secret = fill_some s k.secret }
fill severity_field s k = record k { min_severity = s }
fill host_field s k = change_email (λ e. record e { smtp_host = s }) k
fill port_field s k = change_email (λ e. record e { smtp_port = s }) k
fill user_field s k = change_email (λ e. record e { username = s }) k
fill password_field s k = change_email (λ e. record e { password = s }) k
fill from_field s k = change_email (λ e. record e { from_address = s }) k
fill to_field s k = change_email (λ e. record e { to_addresses = s }) k

-- The chips are told apart by their key.
abbrev pub tick_chip : String → Bool → Chip → Chip
tick_chip key b c = if c.key === key then record c { checked = b; is_on = b } else c

abbrev pub tick : String → Bool → Card → Card
tick key b k = record k { chips = map (tick_chip key b) k.chips }

abbrev pub enable : Bool → Card → Card
enable b k = record k { enabled = b; is_off = not b }

-- The new channel of the add button.
abbrev pub slack_channel : Meta → Channel
slack_channel m = record {
  id = "";
  name = "Slack channel";
  kind = "slack";
  enabled = true;
  url = some "";
  routing_key = none;
  secret = none;
  events = keys_of m.event_types;
  min_severity = "warning";
  email = record {
    smtp_host = none;
    smtp_port = none;
    security = none;
    username = none;
    password = none;
    from_address = none;
    to_addresses = [];
  };
}

-- The default name of the old type gives way to that of the new one.
abbrev pub rename : String → Channel → Channel
rename previous c =
    if c.name === default_name previous then record c { name = default_name c.kind } else c

abbrev pub kind_at : ℕ → List Channel → String
kind_at i channels = elim (get_elem? channels i) [ none ↦ "" | some c ↦ c.kind ]

pub data Event : Type 0 where
  add_pressed : Event
  remove_pressed : ℕ → Event
  type_chosen security_chosen : ℕ → String → Event
  filled : ℕ → CardField → String → Event
  ticked : ℕ → String → Bool → Event
  enabled_set : ℕ → Bool → Event
  save_answered : SaveReply → Event
  test_answered : TestReply → Event

module _ (number : String → Option ℤ) where
  -- Each card into the channel at its position.
  unfoldable pub collect_all : List Card → List Channel → List Channel
  unfolding collect_channel
  collect_all [] channels = channels
  collect_all (k ∷ cards) [] = []
  collect_all (k ∷ cards) (c ∷ channels) = collect_channel number k c ∷ collect_all cards channels

  abbrev pub collect_rules : List (String × String) → List (String × ℤ) → List (String × ℤ)
  collect_rules [] rules = rules
  collect_rules ((key, value) ∷ inputs) rules =
      collect_rules inputs (set_key key (nonzero_or (pos 0) (number value)) rules)

  unfoldable pub collect : Page → Page
  unfolding collect_all
  collect p = record p {
    channels = collect_all p.cards p.channels;
    rules = collect_rules p.rule_inputs p.rules;
  }

  abbrev pub with_channels : (List Channel → List Channel) → Page → Page
  with_channels f p = record p { channels = f p.channels }

  unfoldable pub remove : ℕ → Page → Page
  unfolding render collect
  remove i p = render (with_channels (remove_at i) (collect p))

  unfoldable pub add : Page → Page
  unfolding render collect
  add p = render (with_channels (λ cs. cs ++ slack_channel p.meta ∷ []) (collect p))

  -- The select of the type of card i is set to `kind`.
  unfoldable pub change_type : ℕ → String → Page → Page
  unfolding render collect
  change_type i kind p =
      let q : Page =
        collect (record p { cards = change_at i (λ k. record k { kind = kind }) p.cards }) in
      render (with_channels (change_at i (rename (kind_at i p.channels))) q)

  abbrev pub choose_security : String → EmailCard → EmailCard
  choose_security security e = record e {
    security = security;
    smtp_port = moved_port number security e.smtp_port;
  }

  unfoldable pub change_security : ℕ → String → Page → Page
  unfolding render collect moved_port
  change_security i security p =
      render (
        collect
          (record p { cards = change_at i (change_email (choose_security security)) p.cards }))

  unfoldable pub save : SaveReply → Page → Page
  unfolding render collect
  save (save_failed e) p = set_message (template ("Save failed: " ∷ e ∷ [])) false (collect p)
  save (saved channels rules) p =
      set_message "Notification settings saved." true
        (render (record (collect p) { channels = channels; rules = rules }))
  save (not_saved message) p = set_message (or_text message "Save failed.") false (collect p)

  unfoldable pub test : TestReply → Page → Page
  unfolding collect
  test (test_failed e) p = set_message (template ("Test failed: " ∷ e ∷ [])) false (collect p)
  test (tested ok message) p =
      set_message (or_text message (if ok then "Test sent." else "Test failed.")) ok (collect p)

  unfoldable pub step : Page → Event → Page
  unfolding add remove change_type change_security fill save test
  step p add_pressed = add p
  step p (remove_pressed i) = remove i p
  step p (type_chosen i kind) = change_type i kind p
  step p (security_chosen i security) = change_security i security p
  step p (filled i f s) = record p { cards = change_at i (fill f s) p.cards }
  step p (ticked i key b) = record p { cards = change_at i (tick key b) p.cards }
  step p (enabled_set i b) = record p { cards = change_at i (enable b) p.cards }
  step p (save_answered reply) = save reply p
  step p (test_answered reply) = test reply p

  unfoldable pub run : Page → List Event → Page
  unfolding step
  run p [] = p
  run p (e ∷ events) = run (step p e) events
