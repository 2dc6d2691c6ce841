-- ===== src/Interfaces/ModbusTcp/Consistent.antt =====
-- What holds of the Modbus TCP panel in web_console/static/js/app.js at all times.
use gateway_hub.Interfaces.Registers.{new_row, refresh_empty, RowField, Table}
use gateway_hub.Interfaces.ModbusTcp.{
  interval_field, add, type_register, delete_row, delete_register, add_row, add_register,
  unit_field, set_enabled, enable, port_field, typed, ip_field, toggle_header, iface_field,
  type_row, press_header, show_line, summary_text, name_field, ◌∷◌, change_table, value_or, delete,
  some, count_text, ConnField, refresh_summary, new_conn, change_conn, max_conn, update_mtcp_count,
  Event, Panel, delete_conn, add_conn, Conn, step, type_field, run,
}
use gateway_hub.Prelude.{
  refl, All-append, length-append, false, All-remove_at, ◌+◌, All, length-remove_at, All-change_at,
  inr, none, true, arith, [], change_at, inl, ◌++◌, Bool-cases, remove_at, ◌==◌, leb,
  length-change_at, length, Option, ◌≡◌, Bool, String, List, template, ◌≤◌, ℕ,
}

-- The line for no rows, where there is one, is shown just when there are none.
abbrev pub IsEmptyShown : {A : Type 0} → List A → Option Bool → Type 0
IsEmptyShown xs none = Unit
IsEmptyShown xs (some b) = b ≡ (length xs == 0)

-- The header of a connection tells what its fields hold.
abbrev pub IsSummarised : Conn → Type 0
IsSummarised c =
    (c.name_label ≡ value_or c.name "Unnamed")
    × (c.summary ≡ summary_text c.iface c.ip c.port c.unit_id)
    × (c.dot_active ≡ c.enabled)
    × (c.body_shown ≡ c.is_open)
    × (c.chevron_turned ≡ c.is_open)
    × IsEmptyShown c.registers.rows c.registers.empty_line

abbrev pub IsConsistent : Panel → Type 0
IsConsistent p =
    (length p.conns ≤ max_conn)
    × (p.count ≡ count_text (length p.conns))
    × (p.add_disabled ≡ true → length p.conns ≡ max_conn)
    × IsEmptyShown p.conns p.empty_line
    × All IsSummarised p.conns

show_line-IsEmptyShown :
    {A : Type 0} (xs : List A) (b : Bool) (line : Option Bool)
    → b ≡ (length xs == 0)
    → IsEmptyShown xs (show_line b line)
show_line-IsEmptyShown xs b none h = tt
show_line-IsEmptyShown xs b (some c) h = h

IsEmptyShown-length :
    {A : Type 0} (xs ys : List A) (line : Option Bool)
    → length ys ≡ length xs
    → IsEmptyShown xs line
    → IsEmptyShown ys line
IsEmptyShown-length xs ys none e h = tt
IsEmptyShown-length xs ys (some b) e h = rw e h

new_conn-IsSummarised : IsSummarised new_conn
unfolding template
new_conn-IsSummarised = (refl, refl, refl, refl, refl, refl)

type_field-IsSummarised :
    (f : ConnField) (s : String) (c : Conn) → IsSummarised c → IsSummarised (type_field f s c)
unfolding type_field refresh_summary
type_field-IsSummarised name_field s c h = (refl, refl, h.2, h.3, h.4, h.5)
type_field-IsSummarised iface_field s c h = (refl, refl, h.2, h.3, h.4, h.5)
type_field-IsSummarised ip_field s c h = (refl, refl, h.2, h.3, h.4, h.5)
type_field-IsSummarised port_field s c h = (refl, refl, h.2, h.3, h.4, h.5)
type_field-IsSummarised unit_field s c h = (refl, refl, h.2, h.3, h.4, h.5)
type_field-IsSummarised interval_field s c h = h

-- A change of one connection that keeps its header true keeps the panel consistent.
change_conn-IsConsistent :
    (i : ℕ) (f : Conn → Conn) (p : Panel)
    → ((c : Conn) → IsSummarised c → IsSummarised (f c))
    → IsConsistent p
    → IsConsistent (change_conn i f p)
change_conn-IsConsistent i f p keeps (small, count, full, line, all) =
    let e = length-change_at i f p.conns in
    (
      omega (arith, e),
      rw e count,
      λ d. omega (arith, e, full d),
      IsEmptyShown-length p.conns (change_at i f p.conns) p.empty_line e line,
      All-change_at IsSummarised i f keeps p.conns all,
    )

refresh_empty-IsSummarised :
    (t : Table) (c : Conn)
    → IsSummarised c
    → IsSummarised (record c { registers = refresh_empty t })
refresh_empty-IsSummarised t c h =
    (h.0, h.1, h.2, h.3, h.4, show_line-IsEmptyShown t.rows (length t.rows == 0) t.empty_line refl)

length-snoc : {A : Type 0} (x : A) (xs : List A) → length (xs ++ x ∷ []) ≡ length xs + 1
length-snoc x xs = omega (arith, length-append xs (x ∷ []))

full_lem : (n : ℕ) → n ≤ max_conn → leb max_conn n ≡ true → n ≡ max_conn
full_lem n h k = ground arith

add_conn-IsConsistent : (p : Panel) → IsConsistent p → IsConsistent (add_conn p)
unfolding add_conn update_mtcp_count
add_conn-IsConsistent p (small, count, full, line, all) =
    elim (Bool-cases (leb max_conn (length p.conns))) [
      | inl e ↦ rw e (small, count, full, line, all)
      | inr e ↦
          let n = length-snoc new_conn p.conns in
          let small_too : length (p.conns ++ new_conn ∷ []) ≤ max_conn = ground (arith, n, e) in
          rw e (
            small_too,
            refl,
            full_lem (length (p.conns ++ new_conn ∷ [])) small_too,
            show_line-IsEmptyShown (p.conns ++ new_conn ∷ []) false p.empty_line
                (ground (arith, n)),
            All-append IsSummarised p.conns (new_conn ∷ []) all (new_conn-IsSummarised, tt),
          )
    ]

delete_conn-IsConsistent : (i : ℕ) (p : Panel) → IsConsistent p → IsConsistent (delete_conn i p)
unfolding delete_conn update_mtcp_count
delete_conn-IsConsistent i p (small, count, full, line, all) =
    let less : length (remove_at i p.conns) ≤ max_conn =
      omega (arith, length-remove_at i p.conns) in
    (
      less,
      refl,
      full_lem (length (remove_at i p.conns)) less,
      show_line-IsEmptyShown (remove_at i p.conns) (length (remove_at i p.conns) == 0) p.empty_line
          refl,
      All-remove_at IsSummarised i p.conns all,
    )

type_register-IsSummarised :
    (j : ℕ) (f : RowField) (s : String) (c : Conn)
    → IsSummarised c
    → IsSummarised (change_table (λ t. record t { rows = change_at j (type_row f s) t.rows }) c)
type_register-IsSummarised j f s c h = (
  h.0,
  h.1,
  h.2,
  h.3,
  h.4,
  IsEmptyShown-length c.registers.rows (change_at j (type_row f s) c.registers.rows)
      c.registers.empty_line (length-change_at j (type_row f s) c.registers.rows) h.5,
)

step-IsConsistent : (p : Panel) (e : Event) → IsConsistent p → IsConsistent (step p e)
unfolding step
step-IsConsistent p add h = add_conn-IsConsistent p h
step-IsConsistent p (delete i) h = delete_conn-IsConsistent i p h
step-IsConsistent p (press_header i) h =
    change_conn-IsConsistent i toggle_header p (λ c k. (k.0, k.1, k.2, refl, refl, k.5)) h
step-IsConsistent p (typed i f s) h =
    change_conn-IsConsistent i (type_field f s) p (type_field-IsSummarised f s) h
step-IsConsistent p (enable i b) h =
    change_conn-IsConsistent i (set_enabled b) p (λ c k. (k.0, k.1, refl, k.3, k.4, k.5)) h
step-IsConsistent p (add_register i) h =
    change_conn-IsConsistent i (change_table add_row) p
      (λ c.
        refresh_empty-IsSummarised (record c.registers { rows = c.registers.rows ++ new_row ∷ [] })
          c)
      h
step-IsConsistent p (delete_register i j) h =
    change_conn-IsConsistent i (change_table (delete_row j)) p
      (λ c.
        refresh_empty-IsSummarised (record c.registers { rows = remove_at j c.registers.rows }) c)
      h
step-IsConsistent p (type_register i j f s) h =
    change_conn-IsConsistent i
      (change_table (λ t. record t { rows = change_at j (type_row f s) t.rows })) p
      (type_register-IsSummarised j f s) h

pub run-IsConsistent :
    (p : Panel) (events : List Event) → IsConsistent p → IsConsistent (run p events)
unfolding run
run-IsConsistent p [] h = h
run-IsConsistent p (e ∷ events) h = run-IsConsistent (step p e) events (step-IsConsistent p e h)
