-- ===== src/Forwarding/Status/Tests.antt =====
-- The live status of a profile that delivers and of one whose buffer fills.
use gateway_hub.Forwarding.Status.Agreement.{fwd_card-agrees}
use gateway_hub.Forwarding.Status.{
  is_ok, state_class, pipeline_alert, standby, active, fwd_tone, Banner, Item, fwd_card,
}
use gateway_hub.Prelude.{All, refl, ◌↔◌, ◌≡◌, [], none, ◌∷◌, some, to_string, false, true}

abbrev delivering : Item
delivering = record {
  is_mqtt = true;
  state = "connected";
  tunnel_alive = false;
  profile_name = some "Plant";
  last_error = none;
  last_status_code = none;
  count = 12;
  pending = 0;
  replayed = 3;
  dropped = 0;
}

abbrev filling : Item
filling = record delivering { is_mqtt = false; last_error = some "timeout"; pending = 2 }

abbrev no_banner : Banner
no_banner = record {
  hidden = true;
  title = "";
  detail = "";
  pending = "";
  recovered = "";
  dropped = "";
}

fwd_card-agrees_example : ((fwd_card to_string (delivering ∷ filling ∷ [])).tone ≡ active) ↔ (
    ((pipeline_alert to_string (delivering ∷ filling ∷ []) no_banner).hidden ≡ true)
    × All (λ i. state_class i ≡ is_ok) (delivering ∷ filling ∷ []))
fwd_card-agrees_example = fwd_card-agrees to_string (delivering ∷ filling ∷ []) no_banner

tones :
    ((fwd_card to_string (delivering ∷ [])).tone ≡ active)
    × ((fwd_card to_string (delivering ∷ filling ∷ [])).tone ≡ standby)
unfolding fwd_card fwd_tone
tones = (refl, refl)
