-- ===== src/Interfaces/Registers.antt =====
-- The register tables of the interfaces page in web_console/static/js/app.js, and the numbers that
-- its fields are read as.
use gateway_hub.Prelude.Int.{nonzero_or, pos, ℤ}
use gateway_hub.Prelude.{
  none, [], ◌∷◌, map, some, ◌==◌, length, remove_at, List, String, Option, ◌++◌, Bool, ℕ,
}

pub record Row : Type 0 where
  pub name : String
  pub register_type : String
  pub address : String
  pub data_type : String
  pub word_order : String
  pub scale : String
  pub unit : String

pub data RowField : Type 0 where
  name_field type_field address_field data_field order_field scale_field unit_field : RowField

-- The rows, and whether the line for no rows is shown; a table that was rendered with rows has no
-- such line.
pub record Table : Type 0 where
  pub rows : List Row
  pub empty_line : Option Bool

-- `REG_ROW_HTML`
abbrev pub new_row : Row
new_row = record {
  name = "";
  register_type = "holding_register";
  address = "40001";
  data_type = "uint16";
  word_order = "big";
  scale = "1";
  unit = "";
}

abbrev pub show_line : Bool → Option Bool → Option Bool
show_line shown none = none
show_line shown (some b) = some shown

abbrev pub refresh_empty : Table → Table
refresh_empty t = record t { empty_line = show_line (length t.rows == 0) t.empty_line }

abbrev pub add_row : Table → Table
add_row t = refresh_empty (record t { rows = t.rows ++ new_row ∷ [] })

abbrev pub delete_row : ℕ → Table → Table
delete_row i t = refresh_empty (record t { rows = remove_at i t.rows })

abbrev pub type_row : RowField → String → Row → Row
type_row name_field s r = record r { name = s }
type_row type_field s r = record r { register_type = s }
type_row address_field s r = record r { address = s }
type_row data_field s r = record r { data_type = s }
type_row order_field s r = record r { word_order = s }
type_row scale_field s r = record r { scale = s }
type_row unit_field s r = record r { unit = s }

abbrev pub float_or : {F : Type 0} → F → Option F → F
float_or d none = d
float_or d (some x) = x

pub record Register (F : Type 0) : Type 0 where
  pub name : String
  pub register_type : String
  pub address : ℤ
  pub data_type : String
  pub word_order : String
  pub scale : F
  pub unit : String

-- `parse_int` is `parseInt` in base ten, none for NaN; `parse_float` is `parseFloat`, none for NaN
-- and for zero, and `one` is 1.
module _ {F : Type 0} (one : F) (parse_int : String → Option ℤ)
    (parse_float : String → Option F) where
  abbrev pub read_row : Row → Register F
  read_row r = record {
    name = r.name;
    register_type = r.register_type;
    address = nonzero_or (pos 0) (parse_int r.address);
    data_type = r.data_type;
    word_order = r.word_order;
    scale = float_or one (parse_float r.scale);
    unit = r.unit;
  }

  abbrev pub read_reg_table : Table → List (Register F)
  read_reg_table t = map read_row t.rows
