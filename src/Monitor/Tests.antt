-- ===== src/Monitor/Tests.antt =====
-- The charts of the monitor page at three flags in two buckets.
use gateway_hub.Monitor.Markers.Representative.{IsNotAbove, marker_of_lem}
use gateway_hub.Monitor.Markers.Buckets.{bucket_from_lem, sum_items, DistinctKeys, HasOwn}
use gateway_hub.Monitor.Markers.{
  earlier, is_shown, representative, items_of, add_flag, Flag, bucket_from, Window, markers, Bucket,
  marker_of,
}
use gateway_hub.Prelude.{
  keep, length, ◌++◌, true, none, ◌≡◌, map, some, All, String, ℕ, List, [], ◌∷◌, refl,
}
use gateway_hub.Prelude.Sort.{OrderedBy}
use mathlib.Core.List.{Perm}

abbrev flag : ℕ → String → Flag ℕ
flag ts severity = record {
  ts_ms = ts;
  severity = some severity;
  category = some "Spike";
  detector = none;
  value = some 5;
  is_derived = true;
}

-- Ten seconds on 220 pixels: a bucket is one second long.
abbrev shown_window : Window
shown_window = record { x_min = 0; x_max = 10000000; width = 220 }

abbrev flags : List (Flag ℕ)
flags = flag 1200 "Warning" ∷ flag 1700 "Critical" ∷ flag 4000 "Info" ∷ flag 20000 "Info" ∷ []

bucket_from_lem_example :
    let buckets = bucket_from shown_window [] flags in
    All (HasOwn shown_window) buckets
    × DistinctKeys shown_window buckets
    × (sum_items shown_window buckets ≡ length (keep (is_shown shown_window) flags))
bucket_from_lem_example = bucket_from_lem shown_window flags

abbrev early : Bucket ℕ
early = record { key = 1; first = flag 1200 "Warning"; rest = flag 1700 "Critical" ∷ [] }

marker_of_lem_example :
    let m = marker_of (λ t at. 0) (λ s. s) [] early in
    ((before : List (Flag ℕ)) × (after : List (Flag ℕ)) × (items_of early
        ≡ before ++ (m.rep ∷ after)))
    × All (λ a. IsNotAbove a m.rep) (items_of early)
    × (m.count ≡ length (items_of early))
    × Perm m.items (items_of early)
    × OrderedBy earlier m.items
marker_of_lem_example = marker_of_lem (λ t at. 0) (λ s. s) [] early

-- The flag after the window is left out, and the critical one stands for the first bucket.
markers-flags :
    map (λ m. m.rep) (markers (λ t at. 0) (λ s. s) (λ t. true) [] shown_window flags)
    ≡ flag 1700 "Critical" ∷ flag 4000 "Info" ∷ []
unfolding markers bucket_from add_flag marker_of representative
markers-flags = refl
