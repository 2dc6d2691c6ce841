-- ===== src/Notifications/Kept.antt =====
-- A channel that is shown on its card and collected again, in web_console/static/js/app.js.
use gateway_hub.Connectivity.Fields.Items.{IsItem}
use gateway_hub.Connectivity.Fields.Joined.{parse_list-joined}
use gateway_hub.Prelude.Int.{negsuc, pos, nonzero_or, ℤ}
use gateway_hub.Notifications.Channels.{
  port_text, render_chips, render_email, select_value, checked_keys, render_channel, collect_email,
  collect_channel, Channel, Meta,
}
use gateway_hub.Prelude.{
  keep, All, [], ◌∷◌, ===-other, false, eq_iff, ◌===◌, none, ◌∙◌, inr, inl, or_text, ◌==◌, ap,
  Bool-cases, keys_of, refl, some, true, ◌≡◌, includes, List, String, Option,
}

-- An email channel that the page can show: its type, severity and encryption are options of their
-- selects, without an encryption "starttls" is one, and its addresses are not empty and have no comma
-- within and no space at their ends.
abbrev pub IsShowable : Meta → Channel → Type 0
IsShowable m c =
    (c.kind ≡ "email")
    × (includes m.channel_types "email" ≡ true)
    × (includes m.severities c.min_severity ≡ true)
    × (includes (keys_of m.email_security) (or_text c.email.security "starttls") ≡ true)
    × All IsItem c.email.to_addresses

-- The channel that is collected from the card of c: its events are those of the page's, in the page's
-- order, that it has; a text that is missing is empty, a port that is missing or zero is 587 and a
-- missing or empty encryption is "starttls".
abbrev pub collected : Meta → Channel → Channel
collected m c = record c {
  events = keep (includes c.events) (keys_of m.event_types);
  email = record c.email {
    smtp_host = some (or_text c.email.smtp_host "");
    smtp_port = some (nonzero_or (pos 587) c.email.smtp_port);
    security = some (or_text c.email.security "starttls");
    username = some (or_text c.email.username "");
    from_address = some (or_text c.email.from_address "");
  };
}

checked_keys-keep :
    (events : List String) (types : List (String × String))
    → checked_keys (render_chips events types) ≡ keep (includes events) (keys_of types)
checked_keys-keep events [] = refl
checked_keys-keep events ((key, label) ∷ types) = elim (Bool-cases (includes events key)) [
  | inl e ↦ rw e (ap (key ∷◌) (checked_keys-keep events types))
  | inr e ↦ rw e (checked_keys-keep events types)
]

select_value-included :
    (options : List String) (s : String) → includes options s ≡ true → select_value options s ≡ s
select_value-included options s h = rw h refl

nonzero-again :
    (x : Option ℤ) → nonzero_or (pos 587) (some (nonzero_or (pos 587) x)) ≡ nonzero_or (pos 587) x
nonzero-again none = refl
nonzero-again (some (negsuc n)) = refl
nonzero-again (some (pos n)) = elim (Bool-cases (n == 0)) [
  | inl e ↦ rw e refl
  | inr e ↦ rw (e, e) refl
]

module _ (number : String → Option ℤ) where
  email-collected :
      (m : Meta) (c : Channel)
      → number (port_text c.email.smtp_port) ≡ some (nonzero_or (pos 587) c.email.smtp_port)
      → IsShowable m c
      → collect_email number (some (render_email m c.email)) c.email ≡ (collected m c).email
  unfolding collect_email
  email-collected m c exact h =
      let e = c.email in
      λ i. record {
        smtp_host = some (or_text e.smtp_host "");
        smtp_port = some ((ap (nonzero_or (pos 587)) exact ∙ nonzero-again e.smtp_port) i);
        security = some (
            select_value-included (keys_of m.email_security) (or_text e.security "starttls") h.3 i);
        username = some (or_text e.username "");
        password = e.password;
        from_address = some (or_text e.from_address "");
        to_addresses = parse_list-joined e.to_addresses h.4 i;
      }

  -- Where `number` reads back the port that is printed, an email channel that the page can show is shown on
  -- its card and collected from it with its addresses, its name, its severity and its stored password,
  -- which the card never has, unchanged; of its events those remain that the page knows, in the page's
  -- order, and what is missing is filled in.
  pub collect-render :
      (m : Meta) (c : Channel)
      → number (port_text c.email.smtp_port) ≡ some (nonzero_or (pos 587) c.email.smtp_port)
      → IsShowable m c
      → collect_channel number (render_channel m c) c ≡ collected m c
  unfolding collect_channel render_channel
  collect-render m c exact h =
      let e : (c.kind === "email") ≡ true = (eq_iff c.kind "email").1 h.0 in
      let p : (c.kind === "pagerduty") ≡ false = ===-other c.kind "email" "pagerduty" e refl in
      let known : includes m.channel_types c.kind ≡ true =
        ap (includes m.channel_types) h.0 ∙ h.1 in
      rw (e, p)
        (λ i. record c {
          kind = select_value-included m.channel_types c.kind known i;
          events = checked_keys-keep c.events m.event_types i;
          min_severity = select_value-included m.severities c.min_severity h.2 i;
          email = email-collected m c exact h i;
        })
