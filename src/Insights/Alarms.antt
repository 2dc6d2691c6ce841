-- ===== src/Insights/Alarms.antt =====
-- The form of combined alarms on the insights page in web_console/static/js/app.js: its conditions
-- and what is saved. `number` is `Number`, none for NaN.
use Prim.Native.Char.{code}
use gateway_hub.Prelude.{
  refl, length, ap, ◌&&◌, ◌||◌, map, ◌===◌, ◌==◌, none, All, some, find, ◌++◌, false, Bool, ◌≡◌, [],
  ◌∷◌, or_text, if◌then◌else◌, true, String, List, Option,
}
use gateway_hub.Connectivity.Fields.{trim}
use gateway_hub.Insights.Data.{Device}

-- A row of the form: its two selects and its value.
pub record ConditionRow : Type 0 where
  pub metric : String
  pub op : String
  pub value : String

pub record AlarmForm : Type 0 where
  pub device : String
  pub name : String
  pub rows : List ConditionRow
  pub logic : String
  pub severity : String
  pub message : String
  pub form_hidden : Bool
  pub add_hidden : Bool

pub record Condition (N : Type 0) : Type 0 where
  pub metric_name : String
  pub op : String
  pub value : N

pub record Rule (N : Type 0) : Type 0 where
  pub source_type : String
  pub source_id : String
  pub alarm_name : String
  pub conditions : List (Condition N)
  pub logic : String
  pub severity : String
  pub message : String

-- `const [src, ...rest] = key.split("|")` and `rest.join("|")`: what stands before the first bar, and
-- what stands after it.
unfoldable pub before_bar : String → String
before_bar String.[] = ""
before_bar (String.◌∷◌ c s) =
    let rest = before_bar s in if code c == b'|' then "" else String.◌∷◌ c rest

unfoldable pub after_bar : String → String
after_bar String.[] = ""
after_bar (String.◌∷◌ c s) = let rest = after_bar s in if code c == b'|' then s else rest

abbrev pub metrics_of : Option Device → List String
metrics_of none = []
metrics_of (some d) = d.expected

-- `cbMetricOptions`
unfoldable pub metric_options : List Device → String → List String
unfolding before_bar after_bar
metric_options devices key =
    metrics_of (find (λ d. d.source === before_bar key && d.device_id === after_bar key) devices)

abbrev pub first_option : List String → String
first_option [] = ""
first_option (m ∷ ms) = m

-- A new row: the first reading and the first operator are chosen, and the value is blank.
abbrev pub new_row : List Device → String → ConditionRow
new_row devices key = record {
  metric = first_option (metric_options devices key);
  op = "gt";
  value = "";
}

abbrev pub add_condition_row : List Device → AlarmForm → AlarmForm
add_condition_row devices f = record f { rows = f.rows ++ new_row devices f.device ∷ [] }

abbrev pub two_rows : List Device → AlarmForm → AlarmForm
two_rows devices f = add_condition_row devices (add_condition_row devices (record f { rows = [] }))

-- `cbResetForm`
unfoldable pub reset_form : List Device → AlarmForm → AlarmForm
reset_form devices f = two_rows devices (record f { name = ""; message = "" })

abbrev pub choose_device : List Device → String → AlarmForm → AlarmForm
choose_device devices key f = two_rows devices (record f { device = key })

abbrev pub open_form : List Device → AlarmForm → AlarmForm
open_form devices f = record (reset_form devices f) { form_hidden = false; add_hidden = true }

abbrev pub cancel_form : AlarmForm → AlarmForm
cancel_form f = record f { form_hidden = true; add_hidden = false }

-- What a press of save does: an alert and no request, or a request.
pub data Outcome (N : Type 0) : Type 0 where
  refused : Outcome N
  posted : Rule N → Outcome N

module _ {N : Type 0} (number : String → Option N) where
  abbrev pub with_value : ConditionRow → Option N → List (Condition N) → List (Condition N)
  with_value r none rest = rest
  with_value r (some n) rest = record { metric_name = r.metric; op = r.op; value = n } ∷ rest

  unfoldable pub read_conditions : List ConditionRow → List (Condition N)
  read_conditions [] = []
  read_conditions (r ∷ rows) =
      let rest = read_conditions rows in
      if r.metric === "" then rest else with_value r (number r.value) rest

  abbrev pub rule_of : AlarmForm → Rule N
  rule_of f = record {
    source_type = before_bar f.device;
    source_id = after_bar f.device;
    alarm_name = trim f.name;
    conditions = read_conditions f.rows;
    logic = or_text (some f.logic) "all";
    severity = or_text (some f.severity) "warning";
    message = f.message;
  }

  unfoldable pub save_rule : AlarmForm → Outcome N
  unfolding read_conditions before_bar after_bar
  save_rule f =
      if before_bar f.device === ""
        || after_bar f.device === ""
        || trim f.name === ""
        || length (read_conditions f.rows) == 0
      then refused
      else posted (rule_of f)

  -- Since `Number` of the blank text is zero and not NaN, a row whose value was left blank is a
  -- condition on zero: none of the rows with a reading is left out, also of those of a new form.
  pub blank_rows_sent :
      (rows : List ConditionRow) (zero_value : N)
      → number "" ≡ some zero_value
      → All (λ r. (r.value ≡ "") × ((r.metric === "") ≡ false)) rows
      → read_conditions rows
        ≡ map (λ r. record { metric_name = r.metric; op = r.op; value = zero_value }) rows
  unfolding read_conditions
  blank_rows_sent [] zero_value e h = refl
  blank_rows_sent (r ∷ rows) zero_value e h =
      rw (h.0.1, h.0.0, e)
        (ap (record { metric_name = r.metric; op = r.op; value = zero_value } ∷◌)
          (blank_rows_sent rows zero_value e h.1))
