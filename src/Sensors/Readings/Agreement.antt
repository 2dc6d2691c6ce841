-- ===== src/Sensors/Readings/Agreement.antt =====
-- The rows of readings as they are built and as they are updated.
use gateway_hub.Sensors.Readings.{
  trim, unit_text, value_text, is_null, updated_quality, present_row, Row, built_quality, build_row,
  updated_row, update_row, row_of,
}
use gateway_hub.Prelude.{
  Option-cases, Option, eq_iff, subst, inl, inr, ◌===◌, Bool, Bool-cases, false, or_text, none,
  some, lookup_in, true, ◌≡◌, includes, String, List, [], ◌∷◌, refl,
}
use gateway_hub.Connectivity.Fields.{trim}
use gateway_hub.Insights.Data.{Live, Reading}
use gateway_hub.Insights.Cards.{in_error}

-- The qualities that the page has a look for.
abbrev pub qualities : List String
qualities = "good" ∷ "stale" ∷ "error" ∷ []

same_look :
    (unit a q value : String)
    → present_row unit a value ≡ row_of unit a value
    → (a === q) ≡ true
    → present_row unit q value ≡ row_of unit q value
same_look unit a q value h e =
    subst (λ x. present_row unit x value ≡ row_of unit x value) ((eq_iff a q).0 e) h

present_row-row_of :
    (unit q value : String)
    → includes qualities q ≡ true
    → present_row unit q value ≡ row_of unit q value
unfolding row_of
present_row-row_of unit q value h = elim (Bool-cases ("good" === q)) [
  | inl e ↦ same_look unit "good" q value refl e
  | inr a ↦ elim (Bool-cases ("stale" === q)) [
    | inl e ↦ same_look unit "stale" q value refl e
    | inr b ↦ elim (Bool-cases ("error" === q)) [
      | inl e ↦ same_look unit "error" q value refl e
      | inr c ↦ absurd (cc (rw (a, b, c) at h))
    ]
  ]
]

updated-known :
    (failed : Bool) (m : Reading)
    → includes qualities (or_text m.quality "good") ≡ true
    → includes qualities (updated_quality failed m) ≡ true
updated-known true m h = refl
updated-known false m h = elim (Bool-cases (is_null m)) [ inl e ↦ rw e refl | inr e ↦ rw e h ]

-- If the live data have the reading and its quality, when it has one, is good, stale or error, an update
-- makes a row what a new list of rows would show, but for the text of the unit, which stays as it was.
pub update_row-rebuilt :
    (own : Option String) (live : Live) (name : String) (m : Reading) (row : Row)
    → lookup_in name live.metrics ≡ some m
    → includes qualities (or_text m.quality "good") ≡ true
    → update_row (some live) name row ≡ record (build_row own (some live) name) { unit = row.unit }
unfolding update_row updated_row build_row built_quality row_of
update_row-rebuilt own live name m row h q = rw h (
    present_row-row_of row.unit (updated_quality (in_error live) m) (value_text m)
      (updated-known (in_error live) m q))

-- A reading that the live data of a device without an error lack is shown as an error by a new list
-- of rows, and as "none" by an update.
pub update_row-absent :
    (own : Option String) (live : Live) (name : String) (row : Row)
    → lookup_in name live.metrics ≡ none
    → in_error live ≡ false
    → ((build_row own (some live) name).pill ≡ "error")
      × ((update_row (some live) name row).pill ≡ "none")
unfolding update_row updated_row build_row built_quality row_of
update_row-absent own live name row h f = (rw (h, f) refl, rw (h, f) refl)

-- A row that was built without live data, of a reading whose unit only the live data tell, has no unit,
-- and no update gives it one.
pub update_row-no_unit :
    (live : Live) (name : String)
    → (update_row (some live) name (build_row none none name)).unit ≡ ""
unfolding update_row updated_row build_row built_quality row_of unit_text trim
update_row-no_unit live name = elim (Option-cases (lookup_in name live.metrics)) [
  | inl e ↦ rw e refl
  | inr (m, e) ↦ rw e refl
]
