-- ===== src/Incidents/Tests.antt =====
-- The scripts of incidents.js at concrete lists, pages, answers and figures.
use gateway_hub.Prelude.{
  map, ℕ, ◌≡◌, ◌<◌, refl, true, false, ◌&&◌, ◌||◌, ◌==◌, leb, ltb, ◌+◌, none, some, List, [], ◌∷◌,
  length, arith,
}
use gateway_hub.Prelude.Int.{pos, negsuc}
use gateway_hub.Format.{duration}
use gateway_hub.Incidents.Data.{Incident, answered, refused}
use gateway_hub.Incidents.Escape.{codes, esc, has_markup, unescape, has_markup-esc, unescape-esc}
use gateway_hub.Incidents.Paging.{paginate, Pager, pager, number_button, page_numbers}
use gateway_hub.Incidents.Paging.Slices.{first_pages, pages_partition}
use gateway_hub.Incidents.Paging.Numbers.{numbers_of, has_number, Start, page_numbers_lem}
use gateway_hub.Incidents.Panel.{Panel, attached, run, load, IsRendered, panel_shows_page}
use gateway_hub.Incidents.Panel as P
use gateway_hub.Incidents.Kpi.{Kpi, KpiView, is, figure, percent, verified, kpi_view}

abbrev markup_text : List ℕ
markup_text = codes "<b a=\"&\">it's</b>"

has_markup-esc_example : has_markup (esc markup_text) ≡ false
has_markup-esc_example = has_markup-esc markup_text

unescape-esc_example : unescape none (esc markup_text) ≡ markup_text
unescape-esc_example = unescape-esc markup_text

abbrev five : List ℕ
five = 1 ∷ 2 ∷ 3 ∷ 4 ∷ 5 ∷ []

pages_partition_example : first_pages five 2 (paginate five (pos 0) 2).page_count ≡ five
pages_partition_example = pages_partition five 2 (omega arith)

page_numbers_lem_example :
    (has_number 6 (numbers_of (page_numbers 5 12))
      ≡ (ltb 6 12 && (6 == 0 || 6 + 1 == 12 || (leb 6 (5 + 1) && leb 5 (6 + 1)))))
    × Start (page_numbers 5 12)
page_numbers_lem_example = page_numbers_lem 5 12 6

abbrev three_pages : Pager
three_pages = record {
  previous = record { target = pos 0; disabled = false; is_current = false };
  numbers = map (number_button 1) (page_numbers 1 3);
  following = record { target = pos 2; disabled = false; is_current = false };
  total = 20;
}

three_pages-eq : pager 1 3 20 ≡ some three_pages
unfolding pager
three_pages-eq = refl

abbrev first_incident : Incident
first_incident = record { ref = "INC-1"; status = "resolved"; ongoing = false; started_ms = 1000 }

abbrev second_incident : Incident
second_incident = record {
  ref = "INC-2";
  status = "blind_active";
  ongoing = true;
  started_ms = 2000;
}

abbrev clicks : List P.Event
clicks =
    P.go (pos 3)
    ∷ P.response refused
    ∷ P.response (answered (some (first_incident ∷ [])))
    ∷ P.go (negsuc 0)
    ∷ []

panel_shows_page_example :
    IsRendered
      (run (load attached (answered (some (second_incident ∷ first_incident ∷ [])))) clicks)
    × (0
          < length
              (run
                (load attached (answered (some (second_incident ∷ first_incident ∷ []))))
                clicks).rows
        → 0
          < length
              (run
                (load attached (answered (some (second_incident ∷ first_incident ∷ []))))
                clicks).list)
panel_shows_page_example =
    panel_shows_page attached (some (second_incident ∷ first_incident ∷ [])) clicks

abbrev measured : Kpi
measured = record {
  keys = 11;
  blind_time_ms = some (pos 61000);
  detection_latency_ms = some (pos 1500);
  buffered_peak = is 40;
  replayed = is 38;
  pending = is 0;
  evicted = is 2;
  recovery_pct = is 95;
  uplink_switches = is 1;
  forwarding_failures = is 3;
  completeness = some "verified";
  partial = false;
}

abbrev shown_kpi : KpiView
shown_kpi = record {
  blind_time = duration (some (pos 61000));
  detection_latency = duration (some (pos 1500));
  buffered = figure 40;
  recovered = figure 38;
  is_good = true;
  unrecovered = figure 2;
  is_loss = true;
  pct = percent 95;
  switches = figure 1;
  retries = figure 3;
  tag = verified;
}

kpi_view-measured : kpi_view (some measured) ≡ some shown_kpi
unfolding kpi_view
kpi_view-measured = refl
