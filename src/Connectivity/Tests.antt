-- ===== src/Connectivity/Tests.antt =====
-- The connectivity page at concrete states, answers and forms.
use gateway_hub.Prelude.{
  suc, ℕ, zero, suc, ◌≡◌, refl, true, false, Option, some, none, List, [], ◌∷◌, arith,
}
use gateway_hub.Network.{NetworkState}
use gateway_hub.Network.Examples.{wifi_gateway}
use gateway_hub.Connectivity.Poll.{start_poll, run, is_pending}
use gateway_hub.Connectivity.Poll.Ends.{
  failures, IsHonest, poll_ends, start_poll-IsHonest, poll_unreachable,
}
use gateway_hub.Connectivity.Action.{Panel, Reply, replied}

-- The same answer so many times.
abbrev seen_times : ℕ → List (Option NetworkState)
seen_times zero = []
seen_times (suc n) = some (record wifi_gateway { active_uplink = none }) ∷ seen_times n

abbrev twenty : List (Option NetworkState)
twenty = seen_times 20

poll_ends_example : (run true (start_poll true none) twenty).scheduled ≡ false
poll_ends_example = poll_ends true none twenty refl (omega arith)

start_poll-IsHonest_example :
    IsHonest true (run true (start_poll true none) (none ∷ some wifi_gateway ∷ []))
start_poll-IsHonest_example = start_poll-IsHonest true none (none ∷ some wifi_gateway ∷ [])

poll_unreachable_example :
    ((run false (start_poll false none) (failures 30)).scheduled ≡ true)
    × ((run false (start_poll false none) (failures 30)).cls ≡ is_pending)
    × ((run false (start_poll false none) (failures 30)).polls ≡ 30)
poll_unreachable_example = poll_unreachable false none 30

abbrev idle_panel : Panel
idle_panel = record {
  message = "";
  is_success = false;
  save_button = record { disabled = false; text = "Save" };
  apply_button = record { disabled = false; text = "Save and Apply" };
  posted = 0;
  refreshed = 0;
  succeeded = 0;
}

abbrev accepted_reply : Reply
accepted_reply =
    replied true
      (record { ok = true; first_error = none; message = some "Saved."; apply_status = none })
