-- ===== src/Interfaces/Rs485.antt =====
-- The RS485 ports of the interfaces page in web_console/static/js/app.js: `buildRtuPayload`.
use gateway_hub.Interfaces.Registers.{read_reg_table, Register, Table}
use gateway_hub.Interfaces.Values.{int_value, serial_value, collect, Value}
use gateway_hub.Prelude.Int.{ℤ}
use gateway_hub.Prelude.{[], none, some, false, List, String, Option, Bool, ℕ}

-- The inputs of a port; its switch may be missing.
pub record RtuPane : Type 0 where
  pub enabled : Option Bool
  pub serial : List (String × String)
  pub modbus : List (String × String)
  pub registers : Table

pub record RtuPort (F : Type 0) : Type 0 where
  pub enabled : Bool
  pub serial : List (String × Value F)
  pub modbus : List (String × Value F)
  pub registers : List (Register F)

pub record RtuPayload (F : Type 0) : Type 0 where
  pub version : ℕ
  pub port_2 : Option (RtuPort F)
  pub port_3 : Option (RtuPort F)

abbrev pub is_checked : Option Bool → Bool
is_checked none = false
is_checked (some b) = b

module _ {F : Type 0} (one : F) (parse_int : String → Option ℤ)
    (parse_float : String → Option F) where
  -- No key of the settings is `registers`, which stands in the same object.
  abbrev pub build_rtu_port : Option RtuPane → Option (RtuPort F)
  build_rtu_port none = none
  build_rtu_port (some p) = some (record {
    enabled = is_checked p.enabled;
    serial = collect (serial_value parse_int) p.serial [];
    modbus = collect (λ key s. int_value parse_int s) p.modbus [];
    registers = read_reg_table one parse_int parse_float p.registers;
  })

  abbrev pub build_rtu_payload : Option RtuPane → Option RtuPane → RtuPayload F
  build_rtu_payload pane_0 pane_1 = record {
    version = 1;
    port_2 = build_rtu_port pane_0;
    port_3 = build_rtu_port pane_1;
  }
