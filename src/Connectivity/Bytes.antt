-- ===== src/Connectivity/Bytes.antt =====
-- `_fmtBytes` of web_console/static/js/app.js. `toFixed(1)` rounds the exact quotient to the nearest
-- tenth, upwards from the middle.
use gateway_hub.Prelude.{
  refl, leb→le, inl, inr, false, Bool-cases, ◌%◌, to_string, template, ◌==◌, ◌/◌, leb,
  if◌then◌else◌, [], ◌⊎◌, ◌+◌, arith, ◌≤◌, List, ◌<◌, ◌≡◌, ◌*◌, ◌∷◌, String, ℕ,
}

-- What stands for some bytes: the size of the unit, its name, and the quotient in tenths.
pub record Size : Type 0 where
  pub unit_size : ℕ
  pub unit_name : String
  pub tenths : ℕ

abbrev pub size_in : ℕ → ℕ → String → Size
size_in bytes d name = record {
  unit_size = d;
  unit_name = name;
  tenths = (20 * bytes + d) / (2 * d);
}

-- `while (b >= 1024 && i < units.length - 1)`, over the units that are left.
unfoldable pub unit_loop : ℕ → ℕ → String → List String → Size
unit_loop bytes d name [] = size_in bytes d name
unit_loop bytes d name (next ∷ units) =
    let rest = unit_loop bytes (1024 * d) next units in
    if leb (1024 * d) bytes then rest else size_in bytes d name

unfoldable pub size_of : ℕ → Size
unfolding unit_loop
size_of bytes = unit_loop bytes 1 "B" ("KB" ∷ "MB" ∷ "GB" ∷ [])

-- Whole bytes are printed without a tenth.
abbrev pub print_size : ℕ → Size → String
print_size bytes s =
    if s.unit_size == 1
    then template (to_string bytes ∷ " " ∷ s.unit_name ∷ [])
    else template
        (to_string (s.tenths / 10) ∷ "." ∷ to_string (s.tenths % 10) ∷ " " ∷ s.unit_name ∷ [])

unfoldable pub fmt_bytes : ℕ → String
unfolding size_of
fmt_bytes bytes = if bytes == 0 then "0 B" else print_size bytes (size_of bytes)

-- The tenths are those nearest to the quotient, and the unit is the largest of those that fit.
abbrev pub IsClose : ℕ → Size → Type 0
IsClose bytes s =
    (2 * (s.unit_size * s.tenths) ≤ 20 * bytes + s.unit_size)
    × (20 * bytes < 2 * (s.unit_size * s.tenths) + s.unit_size)

nearest : (bytes d : ℕ) → 0 < d → (name : String) → IsClose bytes (size_in bytes d name)
nearest bytes d h name = grind arith

abbrev pub IsUnit : Size → Type 0
IsUnit s =
    ((s.unit_size ≡ 1) × (s.unit_name ≡ "B"))
    ⊎ ((s.unit_size ≡ 1024) × (s.unit_name ≡ "KB"))
    ⊎ ((s.unit_size ≡ 1048576) × (s.unit_name ≡ "MB"))
    ⊎ ((s.unit_size ≡ 1073741824) × (s.unit_name ≡ "GB"))

abbrev pub IsBestSize : ℕ → Size → Type 0
IsBestSize bytes s =
    IsUnit s
    × IsClose bytes s
    × ((s.unit_size ≡ 1) ⊎ (s.unit_size ≤ bytes))
    × ((bytes < 1024 * s.unit_size) ⊎ (s.unit_size ≡ 1073741824))

leb-not : (a b : ℕ) → leb a b ≡ false → b < a
leb-not a b h = ground arith

-- The size that is printed for some bytes is in one of the four units, within half a tenth of the
-- exact quotient, at least one of its unit unless it is bytes, and less than 1024 unless it is in GB.
pub size_of_lem : (bytes : ℕ) → IsBestSize bytes (size_of bytes)
unfolding size_of unit_loop
size_of_lem bytes = elim (Bool-cases (leb 1024 bytes)) [
  | inr e ↦
      rw e
        (inl (refl, refl), nearest bytes 1 (omega arith) "B", inl refl, inl (leb-not 1024 bytes e))
  | inl e ↦ rw e (elim (Bool-cases (leb 1048576 bytes)) [
    | inr f ↦ rw f (
      inr (inl (refl, refl)),
      nearest bytes 1024 (omega arith) "KB",
      inr (leb→le 1024 bytes e),
      inl (leb-not 1048576 bytes f),
    )
    | inl f ↦ rw f (elim (Bool-cases (leb 1073741824 bytes)) [
      | inr g ↦ rw g (
        inr (inr (inl (refl, refl))),
        nearest bytes 1048576 (omega arith) "MB",
        inr (leb→le 1048576 bytes f),
        inl (leb-not 1073741824 bytes g),
      )
      | inl g ↦ rw g (
        inr (inr (inr (refl, refl))),
        nearest bytes 1073741824 (omega arith) "GB",
        inr (leb→le 1073741824 bytes g),
        inr refl,
      )
    ])
  ])
]
