-- ===== src/Interfaces/ModbusTcp/Sent.antt =====
-- What the Modbus TCP panel in web_console/static/js/app.js sends.
use gateway_hub.Interfaces.ModbusTcp.Consistent.{run-IsConsistent, IsConsistent}
use gateway_hub.Interfaces.ModbusTcp.{
  run, Event, ◌∷◌, some, read_conn, nonzero_or, Panel, id_at, Conn, read_conns, build_mtcp_payload,
  pos, value_or, Connection,
}
use gateway_hub.Prelude.Int.{neg_part, negsuc, pos_part, ℤ}
use gateway_hub.Prelude.{
  text_differs, none, ◌≤◌, zero, ◌+◌, inr, ap, inl, refl, ◌∷◌, Bool-cases, length, arith, map, All,
  false, suc, [], ◌===◌, Option, ◌≡◌, ◌≢◌, String, ◌==◌, List, ℕ,
}

-- The ids of k connections, from position n.
abbrev pub ids_from : ℕ → ℕ → List String
ids_from n zero = []
ids_from n (suc k) = id_at n ∷ ids_from (n + 1) k

abbrev pub IsFilled : {F : Type 0} → Connection F → Type 0
IsFilled c =
    (c.name ≢ "")
    × (c.iface ≢ "")
    × (c.port ≢ pos 0)
    × (c.unit_id ≢ pos 0)
    × (c.poll_interval_ms ≢ pos 0)

value_or-filled : (s d : String) → d ≢ "" → value_or s d ≢ ""
value_or-filled s d h = elim (Bool-cases (s === "")) [
  | inl e ↦ rw e h
  | inr e ↦ rw e (text_differs s "" e)
]

suc_differs : (n : ℕ) → (n == 0) ≡ false → pos n ≢ pos 0
suc_differs n h e = absurd (grind (arith, ap pos_part e))

nonzero_or-filled : (d : ℤ) (x : Option ℤ) → d ≢ pos 0 → nonzero_or d x ≢ pos 0
nonzero_or-filled d none h = h
nonzero_or-filled d (some (pos n)) h = elim (Bool-cases (n == 0)) [
  | inl e ↦ rw e h
  | inr e ↦ rw e (suc_differs n e)
]
nonzero_or-filled d (some (negsuc n)) h = λ e. absurd (omega (arith, ap neg_part e))

module _ {F : Type 0} (one : F) (parse_int : String → Option ℤ)
    (parse_float : String → Option F) where
  read_conns-ids :
      (n : ℕ) (cs : List Conn)
      → map (λ c. c.id) (read_conns one parse_int parse_float n cs) ≡ ids_from n (length cs)
  unfolding read_conns
  read_conns-ids n [] = refl
  read_conns-ids n (c ∷ cs) = ap (id_at n ∷◌) (read_conns-ids (n + 1) cs)

  read_conn-IsFilled : (n : ℕ) (c : Conn) → IsFilled (read_conn one parse_int parse_float n c)
  read_conn-IsFilled n c = (
    value_or-filled c.name "Unnamed Device" (text_differs "Unnamed Device" "" refl),
    value_or-filled c.iface "eth0" (text_differs "eth0" "" refl),
    nonzero_or-filled (pos 502) (parse_int c.port) (suc_differs 502 refl),
    nonzero_or-filled (pos 1) (parse_int c.unit_id) (suc_differs 1 refl),
    nonzero_or-filled (pos 1000) (parse_int c.poll_interval_ms) (suc_differs 1000 refl),
  )

  read_conns-IsFilled :
      (n : ℕ) (cs : List Conn) → All IsFilled (read_conns one parse_int parse_float n cs)
  unfolding read_conns
  read_conns-IsFilled n [] = tt
  read_conns-IsFilled n (c ∷ cs) = (read_conn-IsFilled n c, read_conns-IsFilled (n + 1) cs)

  length-read_conns :
      (n : ℕ) (cs : List Conn) → length (read_conns one parse_int parse_float n cs) ≡ length cs
  unfolding read_conns
  length-read_conns n [] = refl
  length-read_conns n (c ∷ cs) = ap suc (length-read_conns (n + 1) cs)

  -- However a consistent panel was used, what it sends has at most the ten connections that it
  -- announces, their ids number them in the order of the page, whichever were removed before, and
  -- each has a name, an interface, and a port, a unit and an interval other than zero.
  pub build_mtcp_payload-run :
      (p : Panel) (events : List Event)
      → IsConsistent p
      → let q = run p events in
        let sent = build_mtcp_payload one parse_int parse_float q in
        (length sent.connections ≤ sent.max_connections)
        × (map (λ c. c.id) sent.connections ≡ ids_from 1 (length q.conns))
        × All IsFilled sent.connections
  unfolding build_mtcp_payload
  build_mtcp_payload-run p events h =
      let q = run p events in
      (
        omega (arith, length-read_conns 1 q.conns, (run-IsConsistent p events h).0),
        read_conns-ids 1 q.conns,
        read_conns-IsFilled 1 q.conns,
      )
