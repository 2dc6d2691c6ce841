-- ===== src/Insights/Tests.antt =====
-- The insights overview of a device with a fresh, a stale and a missing reading.
use gateway_hub.Prelude.Int.{pos, ℤ}
use gateway_hub.Insights.Figures.{update_kpis, total_metrics, good_metrics}
use gateway_hub.Insights.Cards.{plain, apply_live, offline, Card}
use gateway_hub.Insights.Agreement.{
  update_kpis_bounds, card_good, apply_live-IsCoherent, IsCoherent,
}
use gateway_hub.Insights.Data.{Live, Device}
use gateway_hub.Insights.Trend.{flat, up, earlier, recent, trend_of, trend_from, compute_trend}
use gateway_hub.Prelude.{
  refl, drop, ◌≡◌, ◌≤◌, arith, false, true, none, [], ◌∷◌, some, List, String, ℕ,
}

abbrev probe : Device
probe = record { source = "rs485"; device_id = "probe"; expected = "temp" ∷ "flow" ∷ "level" ∷ [] }

abbrev probe_live : Live
probe_live = record {
  source = "rs485";
  device_id = "probe";
  status = some "ok";
  error = none;
  timestamp_ms = some 1000;
  metrics =
      ("temp", record { value = some "21.5"; quality = some "good"; unit = none })
      ∷ ("flow", record { value = some "3"; quality = some "stale"; unit = none })
      ∷ [];
  samples = [];
}

abbrev blank_card : Card
blank_card = record {
  status = offline;
  status_text = "";
  is_offline = true;
  is_live = false;
  is_warning = false;
  is_error = false;
  issues_hidden = true;
  issues_text = "";
  issues_is_error = false;
  health_text = "";
  health_width = 0;
  health_class = plain;
  last_seen = "";
  tiles = [];
}

abbrev some_age : ℕ → String
some_age t = "1m ago"

apply_live-IsCoherent_example :
    IsCoherent (some probe_live) (apply_live some_age probe (some probe_live) blank_card)
apply_live-IsCoherent_example =
    apply_live-IsCoherent some_age probe (some probe_live) blank_card (omega arith)

update_kpis_bounds_example :
    (good_metrics (probe_live ∷ []) (probe ∷ []) ≤ card_good (probe_live ∷ []) (probe ∷ []))
    × (card_good (probe_live ∷ []) (probe ∷ []) ≤ total_metrics (probe ∷ []))
    × ((update_kpis 1 (some 2) (probe ∷ []) (probe_live ∷ [])).bar_width ≤ 100)
update_kpis_bounds_example = update_kpis_bounds 1 (some 2) (probe ∷ []) (probe_live ∷ []) (tt, tt)

abbrev rising : List ℤ
rising =
    pos 1
    ∷ pos 1
    ∷ pos 1
    ∷ pos 1
    ∷ pos 1
    ∷ pos 1
    ∷ pos 1
    ∷ pos 1
    ∷ pos 1
    ∷ pos 1
    ∷ pos 1
    ∷ pos 1
    ∷ pos 1
    ∷ pos 1
    ∷ pos 1
    ∷ pos 9
    ∷ pos 9
    ∷ pos 9
    ∷ pos 9
    ∷ pos 9
    ∷ []

-- A rise of twenty samples, and the same rise of seventeen, which is not shown.
rising_shown : (compute_trend rising ≡ up) × (compute_trend (drop 3 rising) ≡ flat)
unfolding compute_trend trend_from trend_of recent earlier
rising_shown = (refl, refl)
