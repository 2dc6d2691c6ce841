-- ===== src/Notifications/Channels.antt =====
-- A channel and its card: `ntRender` and `ntCollect` of web_console/static/js/app.js for one channel.
use gateway_hub.Connectivity.Fields.{parse_list}
use gateway_hub.Prelude.{
  joined, keys_of, to_string, ◌==◌, ◌||◌, none, includes, some, not, [], template, if◌then◌else◌,
  ◌∷◌, lookup_in, String, Option, ◌===◌, Bool, List, or_text, ℕ,
}
use gateway_hub.Prelude.Int.{int_text, pos, nonzero_or, ℤ}

pub record Email : Type 0 where
  pub smtp_host : Option String
  pub smtp_port : Option ℤ
  pub security : Option String
  pub username : Option String
  pub password : Option String
  pub from_address : Option String
  pub to_addresses : List String

pub record Channel : Type 0 where
  pub id : String
  pub name : String
  pub kind : String
  pub enabled : Bool
  pub url : Option String
  pub routing_key : Option String
  pub secret : Option String
  pub events : List String
  pub min_severity : String
  pub email : Email

-- `ntMeta`, with the keys and labels of its objects in their order.
pub record Meta : Type 0 where
  pub event_types : List (String × String)
  pub channel_types : List String
  pub severities : List String
  pub email_security : List (String × String)

pub record EmailCard : Type 0 where
  pub smtp_host : String
  pub smtp_port : String
  pub security : String
  pub username : String
  pub password : String
  pub from_address : String
  pub to_addresses : String

pub record Chip : Type 0 where
  pub key : String
  pub checked : Bool
  pub is_on : Bool

-- The values of a card's inputs; those that are not on it are none.
pub record Card : Type 0 where
  pub is_off : Bool
  pub name : String
  pub kind : String
  pub enabled : Bool
  pub url : Option String
  pub routing_key : Option String
  pub secret : Option String
  pub email : Option EmailCard
  pub chips : List Chip
  pub min_severity : String

abbrev pub type_labels : List (String × String)
type_labels =
    ("slack", "Slack")
    ∷ ("teams", "Microsoft Teams")
    ∷ ("discord", "Discord")
    ∷ ("pagerduty", "PagerDuty")
    ∷ ("generic", "Generic JSON webhook")
    ∷ ("email", "Email")
    ∷ []

-- `ntTypeName`
unfoldable pub type_name : String → String
type_name t = or_text (lookup_in t type_labels) t

abbrev pub default_name : String → String
default_name t = template (type_name t ∷ " channel" ∷ [])

abbrev pub security_ports : List (String × ℕ)
security_ports = ("starttls", 587) ∷ ("ssl", 465) ∷ ("none", 25) ∷ []

abbrev pub first_of : List String → String
first_of [] = ""
first_of (x ∷ xs) = x

-- The value of a select whose option `wanted` is marked: without it, the first.
abbrev pub select_value : List String → String → String
select_value options wanted = if includes options wanted then wanted else first_of options

abbrev pub port_text : Option ℤ → String
port_text o = int_text (nonzero_or (pos 587) o)

-- The password's input is always rendered empty.
abbrev pub render_email : Meta → Email → EmailCard
render_email m e = record {
  smtp_host = or_text e.smtp_host "";
  smtp_port = port_text e.smtp_port;
  security = select_value (keys_of m.email_security) (or_text e.security "starttls");
  username = or_text e.username "";
  password = "";
  from_address = or_text e.from_address "";
  to_addresses = joined ", " e.to_addresses;
}

abbrev pub render_chips : List String → List (String × String) → List Chip
render_chips events [] = []
render_chips events ((key, label) ∷ types) =
    record { key = key; checked = includes events key; is_on = includes events key }
    ∷ render_chips events types

unfoldable pub render_channel : Meta → Channel → Card
render_channel m c =
    let is_email = c.kind === "email" in
    record {
      is_off = not c.enabled;
      name = c.name;
      kind = select_value m.channel_types c.kind;
      enabled = c.enabled;
      url = if is_email then none else some (or_text c.url "");
      routing_key = if c.kind === "pagerduty" then some "" else none;
      secret = if is_email || c.kind === "pagerduty" then none else some "";
      email = if is_email then some (render_email m c.email) else none;
      chips = render_chips c.events m.event_types;
      min_severity = select_value m.severities c.min_severity;
    }

abbrev pub over : Option String → Option String → Option String
over none old = old
over (some s) old = some s

abbrev pub checked_keys : List Chip → List String
checked_keys [] = []
checked_keys (c ∷ chips) = let rest = checked_keys chips in if c.checked then c.key ∷ rest else rest

-- `NT_SECURITY_PORT[security] || current`
abbrev pub port_or : ℕ → Option ℕ → ℕ
port_or current none = current
port_or current (some n) = n

-- `number` is `Number`, none for NaN.
module _ (number : String → Option ℤ) where
  -- An empty password keeps the stored one.
  unfoldable pub collect_email : Option EmailCard → Email → Email
  collect_email none e = e
  collect_email (some f) e = record {
    smtp_host = some f.smtp_host;
    smtp_port = some (nonzero_or (pos 587) (number f.smtp_port));
    security = some f.security;
    username = some f.username;
    password = if f.password === "" then e.password else some f.password;
    from_address = some f.from_address;
    to_addresses = parse_list (some f.to_addresses);
  }

  unfoldable pub collect_channel : Card → Channel → Channel
  unfolding collect_email
  collect_channel k c = record {
    id = c.id;
    name = k.name;
    kind = k.kind;
    enabled = k.enabled;
    url = over k.url c.url;
    routing_key = over k.routing_key c.routing_key;
    secret = over k.secret c.secret;
    events = checked_keys k.chips;
    min_severity = k.min_severity;
    email = collect_email k.email c.email;
  }

  -- The port's text after the encryption is chosen: it moves only from one of the three defaults.
  unfoldable pub moved_port : String → String → String
  moved_port security text = elim (number text) [
    | some (pos n) ↦
        if n == 587 || n == 465 || n == 25
        then to_string (port_or n (lookup_in security security_ports))
        else text
    | _ ↦ text
  ]
