-- ===== src/Interfaces/ModbusTcp.antt =====
-- The Modbus TCP panel of the interfaces page in web_console/static/js/app.js: its connections and
-- their payload.
pub mod Consistent
pub mod Sent
use gateway_hub.Interfaces.Registers.{
  read_reg_table, type_row, Register, delete_row, show_line, RowField, Table, add_row,
}
use gateway_hub.Prelude.{
  true, some, to_string, ◌++◌, ◌+◌, ◌==◌, ◌===◌, [], template, Option, ◌∷◌, leb, false, change_at,
  remove_at, Bool, if◌then◌else◌, length, List, not, String, ℕ,
}
use gateway_hub.Prelude.Int.{nonzero_or, pos, ℤ}

abbrev pub max_conn : ℕ
max_conn = 10

-- A connection's fields, and its header: label, summary, dot, and whether it is open.
pub record Conn : Type 0 where
  pub name : String
  pub iface : String
  pub ip : String
  pub port : String
  pub unit_id : String
  pub poll_interval_ms : String
  pub enabled : Bool
  pub registers : Table
  pub name_label : String
  pub summary : String
  pub dot_active : Bool
  pub is_open : Bool
  pub body_shown : Bool
  pub chevron_turned : Bool

pub data ConnField : Type 0 where
  name_field iface_field ip_field port_field unit_field interval_field : ConnField

pub record Panel : Type 0 where
  pub conns : List Conn
  pub count : String
  pub add_disabled : Bool
  -- The line for no connections, which a page rendered with connections does not have.
  pub empty_line : Option Bool

-- `value || d`
abbrev pub value_or : String → String → String
value_or s d = if s === "" then d else s

abbrev pub summary_text : String → String → String → String → String
summary_text iface ip port unit_id = template (
    iface
    ∷ " · "
    ∷ value_or ip "—"
    ∷ ":"
    ∷ value_or port "502"
    ∷ " · Unit "
    ∷ value_or unit_id "1"
    ∷ [])

unfoldable pub refresh_summary : Conn → Conn
refresh_summary c = record c {
  name_label = value_or c.name "Unnamed";
  summary = summary_text c.iface c.ip c.port c.unit_id;
}

-- The fields that the summary listens to, and the interval, which it does not show.
unfoldable pub type_field : ConnField → String → Conn → Conn
unfolding refresh_summary
type_field name_field s c = refresh_summary (record c { name = s })
type_field iface_field s c = refresh_summary (record c { iface = s })
type_field ip_field s c = refresh_summary (record c { ip = s })
type_field port_field s c = refresh_summary (record c { port = s })
type_field unit_field s c = refresh_summary (record c { unit_id = s })
type_field interval_field s c = record c { poll_interval_ms = s }

abbrev pub toggle_header : Conn → Conn
toggle_header c =
    let opened = not c.is_open in
    record c { is_open = opened; body_shown = opened; chevron_turned = opened }

abbrev pub set_enabled : Bool → Conn → Conn
set_enabled b c = record c { enabled = b; dot_active = b }

abbrev pub new_conn : Conn
new_conn = record {
  name = "New Device";
  iface = "eth0";
  ip = "";
  port = "502";
  unit_id = "1";
  poll_interval_ms = "1000";
  enabled = false;
  registers = record { rows = []; empty_line = some true };
  name_label = "New Device";
  summary = "eth0 · —:502 · Unit 1";
  dot_active = false;
  is_open = true;
  body_shown = true;
  chevron_turned = true;
}

abbrev pub count_text : ℕ → String
count_text n = template (to_string n ∷ " / 10" ∷ [])

unfoldable pub update_mtcp_count : Panel → Panel
update_mtcp_count p =
    let n = length p.conns in record p { count = count_text n; add_disabled = leb max_conn n }

unfoldable pub add_conn : Panel → Panel
unfolding update_mtcp_count
add_conn p =
    if leb max_conn (length p.conns)
    then p
    else update_mtcp_count
        (record p { conns = p.conns ++ new_conn ∷ []; empty_line = show_line false p.empty_line })

unfoldable pub delete_conn : ℕ → Panel → Panel
unfolding update_mtcp_count
delete_conn i p =
    let q : Panel = update_mtcp_count (record p { conns = remove_at i p.conns }) in
    record q { empty_line = show_line (length q.conns == 0) q.empty_line }

abbrev pub change_conn : ℕ → (Conn → Conn) → Panel → Panel
change_conn i f p = record p { conns = change_at i f p.conns }

abbrev pub change_table : (Table → Table) → Conn → Conn
change_table f c = record c { registers = f c.registers }

-- What the page does on a press, or what is filled in, in the connection and the row at a position.
pub data Event : Type 0 where
  add : Event
  delete : ℕ → Event
  press_header : ℕ → Event
  typed : ℕ → ConnField → String → Event
  enable : ℕ → Bool → Event
  add_register : ℕ → Event
  delete_register : ℕ → ℕ → Event
  type_register : ℕ → ℕ → RowField → String → Event

unfoldable pub step : Panel → Event → Panel
unfolding add_conn delete_conn type_field
step p add = add_conn p
step p (delete i) = delete_conn i p
step p (press_header i) = change_conn i toggle_header p
step p (typed i f s) = change_conn i (type_field f s) p
step p (enable i b) = change_conn i (set_enabled b) p
step p (add_register i) = change_conn i (change_table add_row) p
step p (delete_register i j) = change_conn i (change_table (delete_row j)) p
step p (type_register i j f s) =
    change_conn i (change_table (λ t. record t { rows = change_at j (type_row f s) t.rows })) p

unfoldable pub run : Panel → List Event → Panel
unfolding step
run p [] = p
run p (e ∷ events) = run (step p e) events

pub record Connection (F : Type 0) : Type 0 where
  pub id : String
  pub name : String
  pub enabled : Bool
  pub iface : String
  pub ip : String
  pub port : ℤ
  pub unit_id : ℤ
  pub poll_interval_ms : ℤ
  pub registers : List (Register F)

pub record Payload (F : Type 0) : Type 0 where
  pub version : ℕ
  pub max_connections : ℕ
  pub connections : List (Connection F)

abbrev pub id_at : ℕ → String
id_at n = template ("conn_" ∷ to_string n ∷ [])

module _ {F : Type 0} (one : F) (parse_int : String → Option ℤ)
    (parse_float : String → Option F) where
  -- The connection at position n, from 1.
  abbrev pub read_conn : ℕ → Conn → Connection F
  read_conn n c = record {
    id = id_at n;
    name = value_or c.name "Unnamed Device";
    enabled = c.enabled;
    iface = value_or c.iface "eth0";
    ip = c.ip;
    port = nonzero_or (pos 502) (parse_int c.port);
    unit_id = nonzero_or (pos 1) (parse_int c.unit_id);
    poll_interval_ms = nonzero_or (pos 1000) (parse_int c.poll_interval_ms);
    registers = read_reg_table one parse_int parse_float c.registers;
  }

  unfoldable pub read_conns : ℕ → List Conn → List (Connection F)
  read_conns n [] = []
  read_conns n (c ∷ cs) = read_conn n c ∷ read_conns (n + 1) cs

  unfoldable pub build_mtcp_payload : Panel → Payload F
  unfolding read_conns
  build_mtcp_payload p = record {
    version = 1;
    max_connections = max_conn;
    connections = read_conns 1 p.conns;
  }
