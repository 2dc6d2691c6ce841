-- ===== src/Forwarding/StatusCard/Tests.antt =====
-- The cards of a profile that delivers and of one whose buffer fills.
use gateway_hub.Forwarding.StatusCard.Agreement.{refresh_status-banner}
use gateway_hub.Forwarding.StatusCard.{
  all_entries, answered, StatusBody, StatusPanel, refresh_status, Entry,
}
use gateway_hub.Prelude.{
  arith, any, not, ◌≡◌, length, none, false, true, some, to_string, [], ◌∷◌, refl,
}

abbrev delivering : Entry
delivering = record {
  item = record {
    is_mqtt = true;
    state = "connected";
    tunnel_alive = false;
    profile_name = some "Plant";
    last_error = none;
    last_status_code = none;
    count = 12;
    pending = 0;
    replayed = 3;
    dropped = 0;
  };
  profile_id = some "p1";
  destination = "broker.local";
  tls = true;
  connected_since = 1000;
  last_message_ms = 61000;
  last_error_at_ms = 0;
}

abbrev filling : Entry
filling = record delivering {
  item = record delivering.item { pending = 2; last_error = some "timeout" };
}

abbrev answer : StatusBody
answer = record { ok = true; mqtt = some (delivering ∷ []); https = some (filling ∷ []) }

abbrev empty_panel : StatusPanel
empty_panel = record {
  hidden = true;
  no_profiles_hidden = true;
  updated = "";
  banner = record {
    hidden = true;
    title = "";
    detail = "";
    pending = "";
    recovered = "";
    dropped = "";
  };
  cards = [];
}

refresh_status-banner_example :
    let seen =
      refresh_status to_string to_string to_string 70000 [] (answered answer) empty_panel in
    (length seen.cards ≡ length (all_entries answer))
    × (seen.hidden ≡ false)
    × (seen.banner.hidden ≡ not (any (λ c. c.buffer.has_detail) seen.cards))
refresh_status-banner_example =
    refresh_status-banner to_string to_string to_string 70000 [] answer empty_panel refl
      (omega arith)
